-- ===== src/Lirc/Remote/Thread/Unknown.antt =====
-- src/lirc_thr.c: a key with an unknown code that is held, in a build with ENABLE_REPEAT.
use bdremote_ng.Prelude.{
  ℕ, zero, suc, ◌≤◌, ◌≡◌, ◌≢◌, refl, ◌∙◌, arith, ℤ, true, false, Option, none, some, List, ◌∷◌,
  replicate, get_elem?, leb, ◌==◌, ok, stop, out_of_bounds, Ensures, Ensures-bind, Ensures-after,
  Bool-cases, inl, inr,
}
use bdremote_ng.Sys.{Env}
use bdremote_ng.Keys.{KeyInfo, keys, undef, keyup_code, code_to_index}
use bdremote_ng.Keys.Lookup.{Found, unknown, known, code_to_index-Found}
use bdremote_ng.Queue.{QueueData, queue_data_de_init}
use bdremote_ng.Lirc.Remote.{Machine, key_at, announce, data_ind_key_down, dispatch, handle_key}
use bdremote_ng.Lirc.Remote.Clock.{init_time, update_time}
use bdremote_ng.Lirc.Remote.Press.{IsReport, handle_key-dispatch}
use bdremote_ng.Lirc.Remote.Thread.Rhythm.{now, elapsed_next, round-unknown}
use bdremote_ng.Lirc.Remote.Thread.{
  restart, rate_delay, send_after_ms, send_repeat, hold, timed, take_packet, repeat_key, round,
  rounds,
}

-- A key is held, and the thread does not know which.
abbrev HoldsUnknown : Machine → Type 0
HoldsUnknown m = (m.ks.key_down ≡ true) × (m.ks.last_key ≡ undef)

undef_unread : {num : ℤ} → num ≡ undef → key_at num ≡ stop out_of_bounds
unfolding key_at
undef_unread e = rw e refl

module _ (env : Env) where
  -- A repeat of no key of the table does not come to its end.
  hold-HoldsUnknown : (m : Machine) → HoldsUnknown m → Ensures HoldsUnknown (hold env m)
  unfolding hold send_repeat
  hold-HoldsUnknown m (down, last) = elim (Bool-cases m.ks.done_waiting) [
    | inl over ↦ elim (Bool-cases (leb (send_after_ms m.ld.config) m.ks.elapsed)) [
      | inl due ↦ simp (over, due, undef_unread last) tt
      | inr early ↦ simp (over, early) (down, last)
    ]
    | inr waits ↦ elim (Bool-cases (leb (rate_delay m.ld.config) m.ks.elapsed)) [
      | inl over ↦ simp (waits, over) (down, last)
      | inr early ↦ simp (waits, early) (down, last)
    ]
  ]

  repeat_key-HoldsUnknown :
      (m : Machine) → HoldsUnknown m → Ensures HoldsUnknown (repeat_key true env m)
  unfolding repeat_key timed update_time
  repeat_key-HoldsUnknown m (down, last) =
      elim (Bool-cases (leb m.ks.cl0.tv_sec (now env m).tv_sec)) [
        | inl order ↦ simp (down, order) (hold-HoldsUnknown _ (refl, last))
        | inr behind ↦ simp (down, behind) tt
      ]

  silence-HoldsUnknown :
      (n : ℕ) (m : Machine)
      → HoldsUnknown m
      → Ensures HoldsUnknown (rounds true env (replicate n none) m)
  unfolding rounds round take_packet
  silence-HoldsUnknown zero m h = h
  silence-HoldsUnknown (suc n) m h =
      Ensures-bind HoldsUnknown HoldsUnknown (repeat_key true env m)
        (rounds true env (replicate n none)) (repeat_key-HoldsUnknown m h)
        (λ m1 h1. silence-HoldsUnknown n m1 h1)

  restart-HoldsUnknown : (m : Machine) → HoldsUnknown m → HoldsUnknown (restart env m)
  unfolding restart init_time
  restart-HoldsUnknown m h = h

  -- The code of the report is in no row of the table.
  press-HoldsUnknown :
      (m : Machine) {code : ℕ} {bytes : List ℕ}
      → m.ld.magic0 ≡ 0x15
      → code ≢ keyup_code
      → code_to_index code ≡ undef
      → IsReport code 1 bytes
      → Ensures HoldsUnknown (take_packet true env (some (record { buffer = bytes; size = 13 })) m)
  unfolding take_packet dispatch data_ind_key_down announce
  press-HoldsUnknown m {code} {bytes} magic down missing r =
      let other : (code == keyup_code) ≡ false = ground arith in
      let qd : QueueData = record { buffer = bytes; size = 13 } in
      let pressed : Machine = record m {
        ks = record m.ks { key_down = true; last_key = undef; repeat_count = 0 };
      } in
      let handled : handle_key env bytes 13 m ≡ ok pressed =
        handle_key-dispatch env m magic r ∙ simp (other, missing) refl in
      rw handled (
        Ensures-after HoldsUnknown (queue_data_de_init qd) _
          (λ u. restart-HoldsUnknown pressed (refl, refl)))

  first_round-HoldsUnknown :
      (m : Machine) (o : Option QueueData)
      → Ensures HoldsUnknown (take_packet true env o m)
      → Ensures HoldsUnknown (round true env o m)
  unfolding round
  first_round-HoldsUnknown m o h =
      Ensures-bind HoldsUnknown HoldsUnknown (take_packet true env o m) (repeat_key true env) h
        (λ m1 h1. repeat_key-HoldsUnknown m1 h1)

not_in_table :
    (code : ℕ)
    → ((i : ℕ) (k : KeyInfo) → get_elem? keys i ≡ some k → k.code ≢ code)
    → code_to_index code ≡ undef
not_in_table code absent = by_search (code_to_index-Found code)
  where
    by_search : Found code (code_to_index code) → code_to_index code ≡ undef
    by_search (unknown e all) = e
    by_search (known i k e small at same) = absurd (absent i k at same)

-- In a build with key repeat, let the thread handle the report that a key went down whose code is
-- neither the key-up code nor in the table, and then go through any number of rounds without a
-- packet. If the first wait is then over, the clock has not gone back to an earlier second and the
-- time counted reaches the repeat period at the next look at the clock, then the next round without
-- a packet reads outside the key table.
pub rounds-unknown :
    (env : Env) (m : Machine) {m' : Machine} {code : ℕ} {bytes : List ℕ} (n : ℕ)
    → m.ld.magic0 ≡ 0x15
    → code ≢ keyup_code
    → ((i : ℕ) (k : KeyInfo) → get_elem? keys i ≡ some k → k.code ≢ code)
    → IsReport code 1 bytes
    → rounds true env (some (record { buffer = bytes; size = 13 }) ∷ replicate n none) m ≡ ok m'
    → m'.ks.cl0.tv_sec ≤ (now env m').tv_sec
    → m'.ks.done_waiting ≡ true
    → send_after_ms m'.ld.config ≤ elapsed_next env m'
    → round true env none m' ≡ stop out_of_bounds
unfolding rounds
rounds-unknown env m {m'} {code} {bytes} n magic down absent r e onward over due =
    let qd : QueueData = record { buffer = bytes; size = 13 } in
    let all : Ensures HoldsUnknown (rounds true env (some qd ∷ replicate n none) m) =
      Ensures-bind HoldsUnknown HoldsUnknown (round true env (some qd) m)
        (rounds true env (replicate n none))
        (first_round-HoldsUnknown env m (some qd)
          (press-HoldsUnknown env m magic down (not_in_table code absent) r))
        (λ m1 h. silence-HoldsUnknown env n m1 h) in
    let stuck : HoldsUnknown m' = rw e at all in
    round-unknown env m' (record { down = stuck.0; onward = onward }) over stuck.1 due
