-- ===== src/Examples/Memory.antt =====
-- The command line `-a 00:11 -a 00:12 -i 00:13` over memory.
use bdremote_ng.Prelude.{
  Outcome, stop, arith, ℕ, zero, suc, ◌+◌, ◌≡◌, ◌≢◌, refl, true, Option, none, some, List, [], ◌∷◌,
  ok, sym, subst, Option-cases, inl, inr,
}
use bdremote_ng.Text.{CString, codes}
use bdremote_ng.Config
use bdremote_ng.Config.{Configuration}
use bdremote_ng.Main.Options
use bdremote_ng.Capture.Bluetooth.{Bluez, any_address}
use bdremote_ng.Queue.{queue_init, add_section, rem_section, put, take_out}
use bdremote_ng.Memory.{allocate, write, read, free, Ptr, null, Heap, Allocator, Block}
use bdremote_ng.Memory.Blocks.{live}
use bdremote_ng.Memory.Settings.{configure}
use bdremote_ng.Memory.Settings.Agrees.{Alike}
use bdremote_ng.Memory.Settings.Accepted.{configure-Alike}
use bdremote_ng.Memory.Packets.{
  Hands, at_start, Event, data_ind, queue_add, queue_rem, handle, step, steps, queue_data_init,
  queue_data_de_init,
}
use bdremote_ng.Memory.Packets.Moves.{Handed}
use bdremote_ng.Memory.Packets.Handed.{IsIdle, packets-Handed}
use bdremote_ng.Memory.Life.{life}
use bdremote_ng.Memory.Goes.{Goes}
use bdremote_ng.Memory.Life.Freed.{LeavesInterface, life-LeavesInterface}

-- the first free address from `p` on, or NULL
abbrev choose : Option Block → Ptr → Ptr → Ptr
choose none p rest = p
choose (some b) p rest = rest

abbrev first_free : ℕ → Ptr → Heap → Ptr
first_free zero p h = null
first_free (suc n) p h = choose (h p) p (first_free n (p + 1) h)

first_free-none :
    (n : ℕ) (p : Ptr) (h : Heap) → first_free n p h ≢ null → h (first_free n p h) ≡ none
first_free-none zero p h ne = absurd (ne refl)
first_free-none (suc n) p h ne =
    let later = first_free n (p + 1) h in
    elim (Option-cases (h p)) [
      | inl e ↦ subst (λ o. h (choose o p later) ≡ none) (sym e) e
      | inr (b, e) ↦
          subst (λ o. h (choose o p later) ≡ none) (sym e)
            (first_free-none n (p + 1) h (subst (λ o. choose o p later ≢ null) e ne))
    ]

abbrev sixteen_blocks : Allocator
sixteen_blocks = record {
  malloc = λ h n. first_free 16 1 h;
  is_fresh = λ h n. first_free-none 16 1 h;
}

abbrev empty : Heap
empty p = none

abbrev arguments : List (ℕ × Option CString)
arguments =
    (b'a', some (codes "00:11")) ∷ (b'a', some (codes "00:12")) ∷ (b'i', some (codes "00:13")) ∷ []

abbrev adapter_text : CString
adapter_text = codes "00:00:00:00:00:00"

abbrev bluez : Bluez
bluez = record {
  first = some any_address;
  ba2str = λ address. some adapter_text;
  str2ba = λ s. some any_address;
  adapters = [];
  has_memory = true;
  has_text_memory = true;
}

abbrev chosen : Configuration
chosen = record (Config.set_defaults Config.zeroed) {
  remote_addr = some (codes "00:12");
  interface_addr = some (codes "00:13");
  interface_addr_set = true;
}

configure-arguments : Options.configure arguments ≡ ok chosen
unfolding Options.configure Options.handle_options Options.handle_option Config.set_remote_address
    Config.set_interface_address Config.set_defaults
configure-arguments = refl

configure-Alike_example :
    Alike sixteen_blocks
      (live empty)
      empty
      (configure sixteen_blocks arguments empty)
      (Options.configure arguments)
configure-Alike_example = configure-Alike sixteen_blocks arguments empty

life-LeavesInterface_example :
    Goes sixteen_blocks (LeavesInterface empty chosen) (life sixteen_blocks bluez arguments empty)
unfolding Config.set_defaults
life-LeavesInterface_example =
    life-LeavesInterface sixteen_blocks bluez arguments empty (codes "00:13") any_address
      (λ address s e. cc) configure-arguments refl refl refl

-- Two packets, of which the second arrives while the first is handled.
abbrev events : List Event
events =
    data_ind (161 ∷ 1 ∷ [])
    ∷ queue_add
    ∷ queue_rem
    ∷ data_ind (161 ∷ 2 ∷ [])
    ∷ handle
    ∷ queue_add
    ∷ queue_rem
    ∷ handle
    ∷ []

packets-Handed_example :
    Goes sixteen_blocks
      (λ m.
        Handed empty m
        × (IsIdle m → (m.handled ≡ m.told) × ((q : Ptr) → live m.heap q ≡ live empty q)))
      (steps sixteen_blocks events (at_start empty))
packets-Handed_example =
    packets-Handed sixteen_blocks events empty
      (omega arith, (tt, (tt, (omega arith, (tt, (tt, (tt, (tt, tt))))))))

abbrev handled_of : Outcome Hands → List (List ℕ)
handled_of (ok m) = m.handled
handled_of (stop fault) = []

both_handled :
    handled_of (steps sixteen_blocks events (at_start empty)) ≡ (161 ∷ 1 ∷ []) ∷ (161 ∷ 2 ∷ []) ∷ []
unfolding steps step queue_data_init queue_data_de_init allocate write read free add_section
    rem_section put take_out queue_init
both_handled = refl
