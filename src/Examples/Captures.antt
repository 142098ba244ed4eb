-- ===== src/Examples/Captures.antt =====
-- A remote that sends two packets and then nothing.
use bdremote_ng.Prelude.{some, none, ℕ, ◌+◌, ◌≡◌, refl, arith, pos, List, [], ◌∷◌, ◌++◌, replicate}
use bdremote_ng.Text.{codes}
use bdremote_ng.Capture.{
  received, Callback, remote_battery_charge, data_ind, Poll, silent, hung_up, timed_out,
  read_from_socket,
}
use bdremote_ng.Capture.Packets.{packets, bursts, read_from_socket-bursts}
use bdremote_ng.Capture.Server.{Meeting, nobody, connection, run_server}
use bdremote_ng.Capture.Server.Strangers.{run_server-without_strangers}
use bdremote_ng.Lirc.Callback.Battery.{
  IsAccessible, commands, battery_charges, script_calls, with_previous, changes,
  battery_charges-commands,
}
use bdremote_ng.Examples.{world, lirc}

abbrev report : List ℕ
report = 0xa1 ∷ 1 ∷ 0 ∷ 0 ∷ 0 ∷ 0x32 ∷ 0xff ∷ 0xff ∷ 0xff ∷ 0xff ∷ 1 ∷ 1 ∷ 4 ∷ []

abbrev session : List (ℕ × List ℕ)
session = (1, report) ∷ (0, 0xa1 ∷ []) ∷ []

abbrev whole_session : List Poll
whole_session = bursts session (replicate 3 silent ++ (hung_up ∷ []))

read_from_socket-bursts_example :
    (packets
        (read_from_socket (pos 2) 0 (bursts session (replicate (2 + 1) silent ++ (hung_up ∷ [])))).0
      ≡ report ∷ (0xa1 ∷ []) ∷ [])
    × ((read_from_socket (pos 2) 0 (bursts session (replicate (2 + 1) silent ++ (hung_up ∷ [])))).1
        ≡ timed_out)
read_from_socket-bursts_example =
    read_from_socket-bursts 2 session hung_up []
      ((omega arith, omega arith), ((omega arith, omega arith), tt)) (λ e. cc)

abbrev told : List Callback
told = remote_battery_charge 80 ∷ data_ind report ∷ data_ind (0xa1 ∷ []) ∷ []

script-IsAccessible : IsAccessible world (codes "/bin/charge")
script-IsAccessible = record { found = λ t. refl }

battery_charges-commands_example :
    commands (battery_charges world (pos 80 ∷ pos 80 ∷ pos 60 ∷ []) lirc []).1
    ≡ script_calls
        (codes "/bin/charge")
        ((pos 80, pos 80) ∷ with_previous (pos 80) (changes (pos 80) (pos 80 ∷ pos 60 ∷ [])))
battery_charges-commands_example =
    battery_charges-commands world (codes "/bin/charge") (pos 80) (pos 80 ∷ pos 60 ∷ []) lirc []
      script-IsAccessible refl refl refl

-- another device, then one without an address, then the remote
abbrev meetings : List Meeting
meetings =
    connection (some (6 ∷ 6 ∷ [])) (received report ∷ [])
    ∷ nobody
    ∷ connection none (received report ∷ hung_up ∷ [])
    ∷ connection (some (1 ∷ 2 ∷ [])) whole_session
    ∷ []

run_server-without_strangers_example :
    (run_server world (pos 8) (pos 9) (pos 2) (1 ∷ 2 ∷ []) meetings []).0
    ≡ (run_server world
        (pos 8)
        (pos 9)
        (pos 2)
        (1 ∷ 2 ∷ [])
        (nobody
          ∷ connection (some (1 ∷ 2 ∷ [])) (received report ∷ hung_up ∷ [])
          ∷ connection (some (1 ∷ 2 ∷ [])) whole_session
          ∷ [])
        []).0
run_server-without_strangers_example =
    run_server-without_strangers world (pos 8) (pos 9) (pos 2) (1 ∷ 2 ∷ []) meetings [] []
