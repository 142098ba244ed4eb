-- ===== src/Lirc/Remote/Thread/Rounds.antt =====
-- src/lirc_thr.c: the loop of the LIRC thread in the default build, where ENABLE_REPEAT is off.
use bdremote_ng.Prelude.{
  ℕ, ◌<◌, ◌≡◌, ◌≢◌, inl, inr, refl, arith, ℤ, true, false, Option, none, some, List, [], ◌∷◌,
  length, get_elem?, get_or, get_elem?-eq-get_or, lt→ltb, eq_ℤ, eq_ℤ_iff, ltb, ◌==◌, ok, ◌>>=◌,
  Returns, Returns-bind, Bool-cases, All,
}
use bdremote_ng.Sys.{Env, WritesAtMost}
use bdremote_ng.Keys.{undef, keyup_code}
use bdremote_ng.Queue.{QueueData, queue_data_de_init}
use bdremote_ng.Lirc.Remote.{
  Machine, key_at, send_event, announce_release, released, data_ind_key_up, dispatch, handle_key,
}
use bdremote_ng.Lirc.Remote.Thread.{take_packet, repeat_key, round, rounds}
use bdremote_ng.Lirc.Remote.Thread.Safety.{
  IsReady, IsIndex, send_event-IsReady, data_ind_key_down-IsReady, announce_release-IsReady,
}

-- A packet as queueDataInit makes it.
abbrev pub IsPacket : QueueData → Type 0
IsPacket qd = (length qd.buffer ≡ qd.size) × (0 < qd.size)

-- What a round may be given: nothing, or such a packet.
abbrev pub IsInput : Option QueueData → Type 0
IsInput none = Unit
IsInput (some qd) = IsPacket qd

-- An index below the length holds an element.
get_elem?-lt : (i : ℕ) (xs : List ℕ) → i < length xs → (x : ℕ) × (get_elem? xs i ≡ some x)
get_elem?-lt i xs h = (get_or xs i 0, get_elem?-eq-get_or xs i 0 h)

module _ (env : Env) (w : WritesAtMost env) where
  released-IsReady : (m : Machine) → IsReady m → IsReady (released m)
  released-IsReady m v = record {
    magic = v.magic;
    table = v.table;
    distinct = v.distinct;
    room = v.room;
    index = inl refl;
    short = v.short;
  }

  release-IsReady :
      (num : ℤ) (code : ℕ) (m : Machine)
      → IsReady m
      → code < 256
      → num ≢ undef
      → IsIndex num
      → Returns IsReady (
          key_at num >>= (λ k.
            announce_release env code k m.ld.config.release m
            >>= (λ m1. ok (released (send_event env k 0 m1)))))
  unfolding key_at
  release-IsReady num code m v small ne (inl e) = elim (ne e) [ ]
  release-IsReady num code m v small ne (inr (i, k, at, e)) =
      rw (at, e)
        (Returns-bind IsReady IsReady (announce_release env code k m.ld.config.release m) _
          (announce_release-IsReady env w code i k m v small e m.ld.config.release refl)
          (λ m1 v1. released-IsReady _ (send_event-IsReady env w k 0 m1 v1)))

  data_ind_key_up-IsReady :
      (code : ℕ) (m : Machine) → IsReady m → Returns IsReady (data_ind_key_up env code m)
  unfolding data_ind_key_up
  data_ind_key_up-IsReady code m v = elim (Bool-cases (code == keyup_code)) [
    | inr other ↦ simp other v
    | inl up ↦ elim (Bool-cases (eq_ℤ m.ks.last_key undef)) [
      | inl nothing ↦ simp (up, nothing) v
      | inr held ↦
          simp (up, held)
            (release-IsReady m.ks.last_key code m v (ground arith)
              (ground (arith, eq_ℤ_iff m.ks.last_key undef)) v.index)
    ]
  ]

  dispatch-IsReady :
      (state code : ℕ) (m : Machine) → IsReady m → Returns IsReady (dispatch env state code m)
  unfolding dispatch
  dispatch-IsReady state code m v = elim (Bool-cases (state == 1)) [
    | inl down ↦ simp down (data_ind_key_down-IsReady env w code m v)
    | inr other ↦ elim (Bool-cases (state == 0)) [
      | inl up ↦ simp (other, up) (data_ind_key_up-IsReady code m v)
      | inr neither ↦ simp (other, neither) v
    ]
  ]

  -- handleKey, on a packet whose size is that of its buffer, ends normally and keeps the thread
  -- ready.
  pub handle_key-IsReady :
      (bytes : List ℕ) (size : ℕ) (m : Machine)
      → IsReady m
      → length bytes ≡ size
      → Returns IsReady (handle_key env bytes size m)
  unfolding handle_key
  handle_key-IsReady bytes size m v e =
      let right : (m.ld.magic0 == 0x15) ≡ true = ground (arith, v.magic) in
      elim (Bool-cases (size == 13)) [
        | inr other ↦ simp (right, other) v
        | inl whole ↦
            let (b0, e0) = get_elem?-lt 0 bytes (ground arith) in
            let (b5, e5) = get_elem?-lt 5 bytes (ground arith) in
            let (b11, e11) = get_elem?-lt 11 bytes (ground arith) in
            elim (Bool-cases (b0 == 0xa1)) [
              | inl report ↦ simp (right, whole, e0, e5, e11, report) (dispatch-IsReady b11 b5 m v)
              | inr stray ↦ simp (right, whole, e0, stray) v
            ]
      ]

  pub take_packet-IsReady :
      (qd : Option QueueData) (m : Machine)
      → IsReady m
      → IsInput qd
      → Returns IsReady (take_packet false env qd m)
  unfolding take_packet queue_data_de_init
  take_packet-IsReady none m v p = v
  take_packet-IsReady (some qd) m v p =
      let full : ltb 0 qd.size ≡ true = lt→ltb _ _ p.1 in
      simp full (
        Returns-bind IsReady IsReady (handle_key env qd.buffer qd.size m) _
          (handle_key-IsReady qd.buffer qd.size m v p.0) (λ m1 v1. v1))

-- The LIRC thread of a build without key repeat, while no client connects, given any sequence of
-- packets as queueDataInit makes them and of time-outs, and with a write() that reports no more
-- bytes than it was offered, never fails: from a state with a well-formed table, fewer than
-- MAX_CLIENTS clients, all on distinct descriptors, a release suffix of at most 61 bytes and a last
-- key that is an index of the key table or undef, every round ends normally and leaves such a
-- state.
pub rounds-IsReady :
    (env : Env) (qds : List (Option QueueData)) (m : Machine)
    → WritesAtMost env
    → IsReady m
    → All IsInput qds
    → Returns IsReady (rounds false env qds m)
unfolding rounds round repeat_key
rounds-IsReady env [] m w v h = v
rounds-IsReady env (qd ∷ qds) m w v h =
    Returns-bind IsReady IsReady (take_packet false env qd m >>= ok) (rounds false env qds)
      (Returns-bind IsReady IsReady (take_packet false env qd m) ok
        (take_packet-IsReady env w qd m v h.0) (λ m1 v1. v1))
      (λ m1 v1. rounds-IsReady env qds m1 w v1 h.1)
