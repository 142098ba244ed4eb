-- ===== src/Memory/Life.antt =====
-- The strings of the daemon from the start of main to its end: those of the configuration, and the
-- two addresses of the capture data (src/captureif.c, and the first part of InitcaptureLoop in
-- src/capture/capture_bluez.c). The other members of the capture data are in `Capture`.
pub mod Holding
pub mod Taken
pub mod Freed
use bdremote_ng.Prelude.{
  ℕ, pos, Bool, false, true, not, ltb_ℤ, ◌==◌, if◌then◌else◌, Option, none, some, List, [], ◌∷◌,
  Outcome, ok, stop, exited, assert, ◌>>=◌, ◌>>◌,
}
use bdremote_ng.Text.{CString}
use bdremote_ng.Capture.Bluetooth.{Bluez, Address}
use bdremote_ng.Memory.{Ptr, null, Heap, Allocator, read, free_val, store_new, copy, set_val}
use bdremote_ng.Memory.Settings.{
  interface_addr, remote_addr, Struct, State, configure, destroy_config,
}

-- `captureData`: whether `config` is set, and its two strings
pub record Addresses : Type 0 where
  pub has_config : Bool
  pub bt_dev_address : Ptr
  pub dest_address : Ptr

-- the memory that main clears with memset
abbrev pub cleared : Addresses
cleared = record { has_config = false; bt_dev_address = null; dest_address = null }

-- the end of main with BDREMOTE_FAIL
abbrev pub failed : {A : Type 0} → Outcome A
failed = stop (exited 255)

-- DestroyCaptureData
unfoldable pub destroy_capture_data : Addresses → Heap → Outcome (Addresses × Heap)
destroy_capture_data cd h = do
  h1 ← free_val h cd.bt_dev_address
  h2 ← free_val h1 cd.dest_address
  ok (record cd { bt_dev_address = null; dest_address = null }, h2)

-- what str2ba makes of the string
unfoldable pub parse_address : Bluez → Addresses → Ptr × Heap → Outcome (Addresses × Heap)
parse_address bt cd (p, h) = read h p >>= λ s. elim (bt.str2ba s) [
  | none ↦ failed
  | some address ↦ ok (record cd { bt_dev_address = p }, h)
]

module _ (a : Allocator) where
  -- SETVAL from a string that is in memory itself
  unfoldable pub set_from : Heap → Ptr → Ptr → Outcome (Ptr × Heap)
  set_from h p source = do h1 ← free_val h p; s ← read h1 source; copy a h1 s

  unfoldable pub set_interface : Struct → Heap → Outcome (Ptr × Heap)
  set_interface c h =
      if c.plain.interface_addr_set then set_from h null (c.string interface_addr) else ok (null, h)

  -- InitCaptureData; what it does to the heap
  unfoldable pub init_capture_data : Addresses → State → Outcome (Addresses × Heap)
  init_capture_data cd (c, h) =
      assert (not (c.string remote_addr == null))
      >> (assert (ltb_ℤ (pos 0) c.plain.disconnect_timeout)
          >> (assert (not cd.has_config)
              >> (free_val h cd.bt_dev_address >>= (λ h1. set_interface c h1 >>= (λ (bt, h2).
                  free_val h2 cd.dest_address >>= (λ h3.
                    set_from h3 null (c.string remote_addr) >>= (λ (dest, h4). ok (
                      record { has_config = true; bt_dev_address = bt; dest_address = dest },
                      h4,
                    ))))))))

  -- malloc(127), memset and ba2str on the address of the first adapter
  unfoldable pub write_address : Heap → Option CString → Outcome (Ptr × Heap)
  write_address h none = store_new a h 127 [] >>= λ r. failed
  write_address h (some s) = store_new a h 127 s

  unfoldable pub any_interface : Bluez → Heap → Option Address → Outcome (Ptr × Heap)
  any_interface bt h none = failed
  any_interface bt h (some address) = write_address h (bt.ba2str address)

  -- InitcaptureLoop up to bt_device_exists
  unfoldable pub own_address : Bluez → Addresses → Heap → Outcome (Addresses × Heap)
  own_address bt cd h =
      (if cd.bt_dev_address == null then any_interface bt h bt.first else ok (cd.bt_dev_address, h))
      >>= parse_address bt cd

  -- main as far as it takes and frees strings, if it comes to its last line
  unfoldable pub life : Bluez → List (ℕ × Option CString) → Heap → Outcome State
  life bt os h = configure a os h >>= (λ m. init_capture_data cleared m >>= (λ (cd, h1).
      own_address bt cd h1
      >>= (λ (cd1, h2). destroy_capture_data cd1 h2 >>= (λ (cd2, h3). destroy_config (m.0, h3)))))
