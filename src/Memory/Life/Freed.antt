-- ===== src/Memory/Life/Freed.antt =====
-- What is left of the strings at the end of main.
use bdremote_ng.Prelude.{
  ℕ, pos, ltb_ℤ, ◌+◌, ◌≡◌, ◌≢◌, true, Option, none, some, List, ok, arith, refl,
}
use bdremote_ng.Text.{CString}
use bdremote_ng.Config
use bdremote_ng.Config.{Configuration}
use bdremote_ng.Main.Options
use bdremote_ng.Main.Options.Accepted.{configure-IsConsistent}
use bdremote_ng.Capture.Bluetooth.{Bluez, Address}
use bdremote_ng.Memory.{Ptr, null, Heap, Allocator}
use bdremote_ng.Memory.Blocks.{Owned, Kept, Points, one, live}
use bdremote_ng.Memory.Settings.{
  release, interface_addr, remote_addr, user, group, log_filename, battery_script, State,
}
use bdremote_ng.Memory.Settings.Agrees.{Agrees}
use bdremote_ng.Memory.Settings.Cleared.{destroy_config-Alike}
use bdremote_ng.Memory.Settings.Accepted.{configure-Alike}
use bdremote_ng.Memory.Life.{life}
use bdremote_ng.Memory.Goes.{Goes-mono, Goes, Goes-bind}
use bdremote_ng.Memory.Life.Holding.{Goes-Alike, Holding-Agrees}
use bdremote_ng.Memory.Life.Taken.{
  own_text, WritesAddress, init_capture_data-Goes, own_address-Goes, destroy_capture_data-Goes,
}

-- Just the string of the interface's address is left, if there is one, beside the heap `h0` of before.
pub record LeavesInterface (h0 : Heap) (c : Configuration) (m : State) : Type 0 where
  pub left : Points m.1 (m.0.string interface_addr) c.interface_addr
  pub owned : Owned m.1 (λ q. one (m.0.string interface_addr) q + live h0 q)
  pub kept : Kept (live h0) h0 m.1

none_at : {p : Ptr} (q : Ptr) → p ≡ null → one p q ≡ 0
none_at q e = ground arith

Agrees-LeavesInterface :
    {h0 : Heap} (c : Configuration) (m : State)
    → Agrees (live h0) h0 (Config.destroy_config c) m
    → LeavesInterface h0 c m
unfolding Config.destroy_config
Agrees-LeavesInterface c m v = record {
  left = v.strings interface_addr;
  owned = λ q. omega (
    arith,
    v.owned q,
    none_at q (v.strings release),
    none_at q (v.strings remote_addr),
    none_at q (v.strings user),
    none_at q (v.strings group),
    none_at q (v.strings log_filename),
    none_at q (v.strings battery_script),
  );
  kept = v.kept;
}

is_given : (o : Option CString) → o ≢ none → (s : CString) × (o ≡ some s)
is_given none h = absurd (h refl)
is_given (some s) h = (s, refl)

-- main, up to its last line, over any heap and any malloc that gives no block twice: with options
-- from which the command line makes a configuration with a positive time-out, and an interface whose
-- address BlueZ can tell (that of the command line, or of the first adapter, which ba2str writes with
-- 17 bytes), main comes through unless malloc has no memory. It frees every string that it has taken
-- just once, but for that of the interface's address on the command line, and leaves what else was
-- in the heap as it was.
pub life-LeavesInterface :
    (a : Allocator) (bt : Bluez) (os : List (ℕ × Option CString)) (h : Heap) {c : Configuration}
    (text : CString) (address : Address)
    → WritesAddress bt
    → Options.configure os ≡ ok c
    → ltb_ℤ (pos 0) c.disconnect_timeout ≡ true
    → own_text bt c.interface_addr ≡ some text
    → bt.str2ba text ≡ some address
    → Goes a (LeavesInterface h c) (life a bt os h)
unfolding life
life-LeavesInterface a bt os h {c} text address w e positive own parsed =
    let (v, there) = configure-IsConsistent os e in
    let (remote, given) = is_given c.remote_addr there in
    Goes-bind _ (Goes-Alike c (configure-Alike a os h) e) λ (s, h1) agrees.
      Goes-bind _ (init_capture_data-Goes h1 remote given v positive (Holding-Agrees agrees))
        λ (cd, h2) (held, at_bt).
          Goes-bind _
            (own_address-Goes bt cd h2 c.interface_addr text address w own parsed at_bt held)
            λ (cd1, h3) held1.
              let (h4, freed, agrees1) = destroy_capture_data-Goes cd1 h3 held1 in
              rw freed (
                Goes-mono
                  (Goes-Alike {a = a} (Config.destroy_config c)
                    (destroy_config-Alike c (s, h4) agrees1) refl)
                  (λ m' v'. Agrees-LeavesInterface c m' v'))
