-- ===== src/Lirc/Remote/Thread/KnownKeys.antt =====
-- src/lirc_thr.c, in a build with ENABLE_REPEAT: the state of the keys from round to round.
use bdremote_ng.Prelude.{
  ℕ, ◌≡◌, ◌≢◌, ◌⊎◌, inl, inr, refl, ap, sym, ◌∙◌, subst, arith, ℤ, true, false, Option, none, some,
  get_elem?, leb, eq_ℤ, ◌==◌, Outcome, ok, stop, ◌>>=◌, assert, in_bounds, Ensures, Ensures-bind,
  Ensures-after, Bool-cases,
}
use bdremote_ng.Text.{CString}
use bdremote_ng.Sys.{Env, Trace}
use bdremote_ng.Keys.{KeyInfo, undef, keyup_code, code_to_index}
use bdremote_ng.Queue.{QueueData, queue_data_de_init}
use bdremote_ng.Lirc.Broadcast.{broadcast_to_lirc}
use bdremote_ng.Lirc.Remote.{
  KeyState, Machine, key_at, name_of, broadcast, send_event, announce, data_ind_key_down,
  announce_release, data_ind_key_up, dispatch, handle_key,
}
use bdremote_ng.Lirc.Remote.Clock.{init_time, update_time}
use bdremote_ng.Lirc.Remote.Thread.{
  rate_delay, send_after_ms, send_repeat, hold, timed, restart, take_packet, repeat_key, round,
}
use bdremote_ng.Lirc.Remote.Thread.Repeats.{KnownIfHeld}

-- If the packet reports a key that goes down, its code is the key-up code or is in the table.
abbrev pub NamesKey : Option QueueData → Type 0
NamesKey none = Unit
NamesKey (some qd) =
    (get_elem? qd.buffer 11 ≢ some 1)
    ⊎ ((code : ℕ) × (get_elem? qd.buffer 5 ≡ some code)
        × ((code ≡ keyup_code) ⊎ (code_to_index code ≢ undef)))

module _ (env : Env) where
  -- The state of the keys is `ks`.
  abbrev HasKeys : KeyState → Machine → Type 0
  HasKeys ks m = m.ks ≡ ks

  broadcast-HasKeys :
      (name : CString) (rep code : ℕ) (m : Machine)
      → Ensures (HasKeys m.ks) (broadcast env name rep code m)
  unfolding broadcast
  broadcast-HasKeys name rep code m =
      Ensures-after (HasKeys m.ks) (broadcast_to_lirc env m.ld name rep code m.device.trace) _
        (λ p. refl)

  send_event-HasKeys :
      (k : KeyInfo) (value : ℕ) (m : Machine) → HasKeys m.ks (send_event env k value m)
  unfolding send_event
  send_event-HasKeys k value m = elim (Bool-cases m.ld.config.event_out) [
    | inl on ↦ simp on
    | inr off ↦ simp off
  ]

  announce-HasKeys : (num : ℤ) (m : Machine) → Ensures (HasKeys m.ks) (announce env num m)
  unfolding announce
  announce-HasKeys num m = elim (Bool-cases (eq_ℤ num undef)) [
    | inl unknown ↦ simp unknown refl
    | inr known ↦ simp known (
        Ensures-after (HasKeys m.ks) (key_at num) _ (λ k.
          Ensures-bind (HasKeys m.ks) (HasKeys m.ks)
            (broadcast env (name_of m.ld.config k) 0 k.code m) _
            (broadcast-HasKeys (name_of m.ld.config k) 0 k.code m)
            (λ m1 e. send_event-HasKeys k 1 m1 ∙ e)))
  ]

  -- What depends on the state of the keys alone.
  known_keys :
      (m : Machine) (o : Outcome Machine)
      → KnownIfHeld m
      → Ensures (HasKeys m.ks) o
      → Ensures KnownIfHeld o
  known_keys m (ok m1) held e =
      subst (λ (ks : KeyState). (ks.key_down ≡ false) ⊎ (ks.last_key ≢ undef)) (sym e) held
  known_keys m (stop f) held e = tt

  data_ind_key_down-KnownIfHeld :
      (code : ℕ) (m : Machine)
      → KnownIfHeld m
      → (code ≡ keyup_code) ⊎ (code_to_index code ≢ undef)
      → Ensures KnownIfHeld (data_ind_key_down env code m)
  unfolding data_ind_key_down
  data_ind_key_down-KnownIfHeld code m held named = elim (Bool-cases (code == keyup_code)) [
    | inl up ↦ simp up (known_keys m (announce env undef m) held (announce-HasKeys undef m))
    | inr down ↦
        let known : code_to_index code ≢ undef = ground arith in
        let num = code_to_index code in
        let m1 = record m {
          ks = record m.ks { key_down = true; last_key = num; repeat_count = 0 };
        } in
        simp down (known_keys m1 (announce env num m1) (inr known) (announce-HasKeys num m1))
  ]

  data_ind_key_up-KnownIfHeld :
      (code : ℕ) (m : Machine) → KnownIfHeld m → Ensures KnownIfHeld (data_ind_key_up env code m)
  unfolding data_ind_key_up
  data_ind_key_up-KnownIfHeld code m held = elim (Bool-cases (code == keyup_code)) [
    | inr other ↦ simp other held
    | inl up ↦ elim (Bool-cases (eq_ℤ m.ks.last_key undef)) [
      | inl nothing ↦ simp (up, nothing) held
      | inr there ↦
          simp (up, there)
            (Ensures-after KnownIfHeld (key_at m.ks.last_key) _ (λ k.
              Ensures-after KnownIfHeld (announce_release env code k m.ld.config.release m) _
                (λ m1. inl refl)))
    ]
  ]

  dispatch-KnownIfHeld :
      (state code : ℕ) (m : Machine)
      → KnownIfHeld m
      → (state ≢ 1) ⊎ ((code ≡ keyup_code) ⊎ (code_to_index code ≢ undef))
      → Ensures KnownIfHeld (dispatch env state code m)
  unfolding dispatch
  dispatch-KnownIfHeld state code m held (inr named) = elim (Bool-cases (state == 1)) [
    | inl down ↦ simp down (data_ind_key_down-KnownIfHeld code m held named)
    | inr other ↦ elim (Bool-cases (state == 0)) [
      | inl up ↦ simp (other, up) (data_ind_key_up-KnownIfHeld code m held)
      | inr neither ↦ simp (other, neither) held
    ]
  ]
  dispatch-KnownIfHeld state code m held (inl not_down) =
      let other : (state == 1) ≡ false = ground arith in
      elim (Bool-cases (state == 0)) [
        | inl up ↦ simp (other, up) (data_ind_key_up-KnownIfHeld code m held)
        | inr neither ↦ simp (other, neither) held
      ]

  -- the bytes of the state and the code, where they are there
  by_bytes :
      (s c : Option ℕ) (m : Machine)
      → KnownIfHeld m
      → (s ≢ some 1)
        ⊎ ((code : ℕ) × (c ≡ some code) × ((code ≡ keyup_code) ⊎ (code_to_index code ≢ undef)))
      → Ensures KnownIfHeld
          (in_bounds s >>= (λ state. in_bounds c >>= (λ code. dispatch env state code m)))
  by_bytes none c m held named = tt
  by_bytes (some state) none m held named = tt
  by_bytes (some state) (some code) m held (inl not_down) =
      dispatch-KnownIfHeld state code m held (inl (λ e. not_down (ap some e)))
  by_bytes (some state) (some code) m held (inr (code', e, named)) =
      let same : code' ≡ code = cc in
      dispatch-KnownIfHeld state code m held
        (inr (subst (λ c. (c ≡ keyup_code) ⊎ (code_to_index c ≢ undef)) same named))

  handle_key-KnownIfHeld :
      (qd : QueueData) (m : Machine)
      → KnownIfHeld m
      → NamesKey (some qd)
      → Ensures KnownIfHeld (handle_key env qd.buffer qd.size m)
  unfolding handle_key
  handle_key-KnownIfHeld qd m held named =
      Ensures-after KnownIfHeld (assert (m.ld.magic0 == 0x15)) _ (λ _.
        elim (Bool-cases (qd.size == 13)) [
          | inr other ↦ simp other held
          | inl whole ↦ simp whole (
              Ensures-after KnownIfHeld (in_bounds (get_elem? qd.buffer 0)) _ (λ magic.
                elim (Bool-cases (magic == 0xa1)) [
                  | inr stray ↦ simp stray held
                  | inl report ↦
                      simp report
                        (by_bytes (get_elem? qd.buffer 11) (get_elem? qd.buffer 5) m held named)
                ]))
        ])

  hold-KnownIfHeld : (m : Machine) → KnownIfHeld m → Ensures KnownIfHeld (hold env m)
  unfolding hold send_repeat
  hold-KnownIfHeld m held = elim (Bool-cases m.ks.done_waiting) [
    | inl over ↦ elim (Bool-cases (leb (send_after_ms m.ld.config) m.ks.elapsed)) [
      | inr early ↦ simp (over, early) held
      | inl due ↦
          simp (over, due)
            (Ensures-after KnownIfHeld (key_at m.ks.last_key) _ (λ k.
              let name = name_of m.ld.config k in
              Ensures-bind KnownIfHeld KnownIfHeld (broadcast env name m.ks.repeat_count k.code m) _
                (known_keys m (broadcast env name m.ks.repeat_count k.code m) held
                  (broadcast-HasKeys name m.ks.repeat_count k.code m))
                (λ m1 held1.
                  known_keys m1 (ok (send_event env k 2 m1)) held1 (send_event-HasKeys k 2 m1))))
    ]
    | inr waits ↦ elim (Bool-cases (leb (rate_delay m.ld.config) m.ks.elapsed)) [
      | inl over ↦ simp (waits, over) held
      | inr early ↦ simp (waits, early) held
    ]
  ]

  timed-KnownIfHeld : (m : Machine) → KnownIfHeld m → Ensures KnownIfHeld (timed env m)
  unfolding timed update_time
  timed-KnownIfHeld m held =
      let known : KeyState × Trace → Type 0 =
        λ p. (p.0.key_down ≡ false) ⊎ (p.0.last_key ≢ undef) in
      Ensures-bind known KnownIfHeld (update_time env m.ks m.device.trace) _
        (Ensures-after known (assert (leb m.ks.cl0.tv_sec (env.clock m.device.trace).tv_sec)) _
          (λ _. held))
        (λ p h. h)

  repeat_key-KnownIfHeld :
      (m : Machine) → KnownIfHeld m → Ensures KnownIfHeld (repeat_key true env m)
  unfolding repeat_key
  repeat_key-KnownIfHeld m held = elim (Bool-cases m.ks.key_down) [
    | inr up ↦ simp up (inl refl)
    | inl down ↦ simp down (
        Ensures-bind KnownIfHeld KnownIfHeld (timed env m) (hold env) (timed-KnownIfHeld m held)
          (λ m1 h. hold-KnownIfHeld m1 h))
  ]

  pub round-KnownIfHeld :
      (qd : Option QueueData) (m : Machine)
      → KnownIfHeld m
      → NamesKey qd
      → Ensures KnownIfHeld (round true env qd m)
  unfolding round take_packet restart init_time
  round-KnownIfHeld none m held named = repeat_key-KnownIfHeld m held
  round-KnownIfHeld (some qd) m held named =
      Ensures-bind KnownIfHeld KnownIfHeld (take_packet true env (some qd) m) _
        (Ensures-bind KnownIfHeld KnownIfHeld (handle_key env qd.buffer qd.size m) _
          (handle_key-KnownIfHeld qd m held named)
          (λ m1 held1. Ensures-after KnownIfHeld (queue_data_de_init qd) _ (λ _. held1)))
        (λ m1 held1. repeat_key-KnownIfHeld m1 held1)
