-- ===== src/Examples/Bluetooth.antt =====
-- A machine with one adapter: its sockets from InitcaptureLoop to the end of captureLoop.
use bdremote_ng.Prelude.{pos, false, true, none, some, List, [], ◌∷◌}
use bdremote_ng.Text.{codes}
use bdremote_ng.Capture.{CaptureData}
use bdremote_ng.Capture.Server.{Meeting, nobody, connection}
use bdremote_ng.Capture.Bluetooth.{Bluez, Address, init_capture_loop}
use bdremote_ng.Capture.Bluetooth.Sockets.{SetUp, init_capture_loop-SetUp}
use bdremote_ng.Examples.{world, house}

abbrev own : Address
own = 9 ∷ 8 ∷ 7 ∷ 6 ∷ 5 ∷ 4 ∷ []

abbrev pub bluez : Bluez
bluez = record {
  first = some own;
  ba2str = λ a. some (codes "04:05:06:07:08:09");
  str2ba = λ s. some own;
  adapters = record { dev_id = 0; address = own; is_raw = false; read_back = none } ∷ [];
  has_memory = true;
  has_text_memory = true;
}

abbrev capture : CaptureData
capture = record {
  magic0 = 127;
  config = some house;
  bt_dev_address = none;
  dest_address = some (codes "00:11:22:33:44:55");
  timeout = pos 2;
  sockets = pos 0 ∷ pos 0 ∷ pos 0 ∷ [];
}

init_capture_loop-SetUp_example : SetUp bluez world [] (init_capture_loop bluez world capture [])
init_capture_loop-SetUp_example = init_capture_loop-SetUp bluez world capture []

abbrev pub visitors : List Meeting
visitors = nobody ∷ connection (some (1 ∷ 2 ∷ [])) [] ∷ []
