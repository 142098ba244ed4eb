-- ===== src/Lirc/Pump/Unchanged.antt =====
-- src/lirc_thr.c: the queue during a round.
use bdremote_ng.Prelude.{
  ℕ, zero, suc, ◌+◌, ◌≡◌, ap, ◌∙◌, ℤ, pos, minus_one, false, Option, none, some, List, ◌++◌, length,
  get_or, ltb, ltb_ℤ, eq_ℤ, ◌==◌, Bool-cases, inl, inr, assert, get_elem?, in_bounds, Ensures,
  Ensures-bind, Ensures-after,
}
use bdremote_ng.Text.{CString}
use bdremote_ng.Sys.{Env, Trace}
use bdremote_ng.Keys.{KeyInfo, undef, keyup_code, code_to_index}
use bdremote_ng.Queue.{Queue, QueueData, queue_data_de_init}
use bdremote_ng.Lirc.{LircData, max_clients}
use bdremote_ng.Lirc.Socket.{write_socket}
use bdremote_ng.Lirc.Clients.Table.{remove_client-SameBesideTable}
use bdremote_ng.Lirc.Broadcast.{
  message, sprintf_into, after_write, broadcast_loop, broadcast_to_lirc,
}
use bdremote_ng.Lirc.Remote.{
  Machine, key_at, name_of, broadcast, send_event, announce, data_ind_key_down, announce_release,
  data_ind_key_up, dispatch, handle_key,
}
use bdremote_ng.Lirc.Remote.Thread.{take_packet, repeat_key, round}

-- the machine still has the queue `q`
abbrev pub HasQueue : Queue QueueData → Machine → Type 0
HasQueue q m = m.ld.qu ≡ q

after_write-qu :
    (env : Env) (len : ℕ) (fd : ℤ) (d : LircData) (i : ℕ) (r : ℤ) (t : Trace)
    → (after_write env len fd d i r t).0.qu ≡ d.qu
unfolding after_write
after_write-qu env len fd d i r t = elim (Bool-cases (ltb_ℤ r (pos len))) [
  | inl short ↦ simp short (ap (λ (x : LircData). x.qu) (remove_client-SameBesideTable env d fd t))
  | inr whole ↦ simp whole
]

module _ (env : Env) (q : Queue QueueData) where
  abbrev Kept : LircData × Trace → Type 0
  Kept p = p.0.qu ≡ q

  broadcast_loop-Kept :
      (msg : CString) (rounds i : ℕ) (d : LircData) (t : Trace)
      → d.qu ≡ q
      → Ensures Kept (broadcast_loop env msg rounds i d t)
  unfolding broadcast_loop
  broadcast_loop-Kept msg zero i d t e = elim (Bool-cases (ltb i d.clin)) [
    | inl more ↦ simp more tt
    | inr done ↦ simp done e
  ]
  broadcast_loop-Kept msg (suc rounds) i d t e = elim (Bool-cases (ltb i d.clin)) [
    | inr done ↦ simp done e
    | inl more ↦
        let fd = get_or d.clis i minus_one in
        simp more (
          Ensures-after Kept (write_socket env fd msg t) _ (λ p.
            let (d', i', t') = after_write env (length msg) fd d i p.0 p.1 in
            broadcast_loop-Kept msg rounds i' d' t'
              (after_write-qu env (length msg) fd d i p.0 p.1 ∙ e)))
  ]

  broadcast-HasQueue :
      (name : CString) (rep code : ℕ) (m : Machine)
      → HasQueue q m
      → Ensures (HasQueue q) (broadcast env name rep code m)
  unfolding broadcast broadcast_to_lirc
  broadcast-HasQueue name rep code m e =
      Ensures-bind Kept (HasQueue q) (broadcast_to_lirc env m.ld name rep code m.device.trace) _
        (Ensures-after Kept (sprintf_into 100 (message code rep name)) _ (λ msg.
          Ensures-after Kept (assert (m.ld.magic0 == 0x15)) _ (λ _.
            Ensures-after Kept (assert (ltb m.ld.clin max_clients)) _
              (λ _. broadcast_loop-Kept msg m.ld.clin 0 m.ld m.device.trace e))))
        (λ p kept. kept)

  send_event-HasQueue :
      (k : KeyInfo) (value : ℕ) (m : Machine) → HasQueue q m → HasQueue q (send_event env k value m)
  unfolding send_event
  send_event-HasQueue k value m e = elim (Bool-cases m.ld.config.event_out) [
    | inl on ↦ simp on e
    | inr off ↦ simp off e
  ]

  announce-HasQueue :
      (num : ℤ) (m : Machine) → HasQueue q m → Ensures (HasQueue q) (announce env num m)
  unfolding announce
  announce-HasQueue num m e = elim (Bool-cases (eq_ℤ num undef)) [
    | inl unknown ↦ simp unknown e
    | inr known ↦ simp known (
        Ensures-after (HasQueue q) (key_at num) _ (λ k.
          Ensures-bind (HasQueue q) (HasQueue q) (broadcast env (name_of m.ld.config k) 0 k.code m)
            _ (broadcast-HasQueue (name_of m.ld.config k) 0 k.code m e)
            (λ m1 e1. send_event-HasQueue k 1 m1 e1)))
  ]

  announce_release-HasQueue :
      (code : ℕ) (k : KeyInfo) (release : Option CString) (m : Machine)
      → HasQueue q m
      → Ensures (HasQueue q) (announce_release env code k release m)
  unfolding announce_release
  announce_release-HasQueue code k none m e = e
  announce_release-HasQueue code k (some suffix) m e =
      elim (Bool-cases (ltb (length (name_of m.ld.config k) + length suffix) 100)) [
        | inl fits ↦ simp fits (broadcast-HasQueue (name_of m.ld.config k ++ suffix) 0 code m e)
        | inr long ↦ simp long e
      ]

  data_ind_key_up-HasQueue :
      (code : ℕ) (m : Machine) → HasQueue q m → Ensures (HasQueue q) (data_ind_key_up env code m)
  unfolding data_ind_key_up
  data_ind_key_up-HasQueue code m e = elim (Bool-cases (code == keyup_code)) [
    | inr other ↦ simp other e
    | inl up ↦ elim (Bool-cases (eq_ℤ m.ks.last_key undef)) [
      | inl nothing ↦ simp (up, nothing) e
      | inr held ↦
          simp (up, held)
            (Ensures-after (HasQueue q) (key_at m.ks.last_key) _ (λ k.
              Ensures-bind (HasQueue q) (HasQueue q)
                (announce_release env code k m.ld.config.release m) _
                (announce_release-HasQueue code k m.ld.config.release m e)
                (λ m1 e1. send_event-HasQueue k 0 m1 e1)))
    ]
  ]

  dispatch-HasQueue :
      (state code : ℕ) (m : Machine)
      → HasQueue q m
      → Ensures (HasQueue q) (dispatch env state code m)
  unfolding dispatch data_ind_key_down
  dispatch-HasQueue state code m e = elim (Bool-cases (state == 1)) [
    | inl down ↦ elim (Bool-cases (code == keyup_code)) [
      | inl up ↦ simp (down, up) (announce-HasQueue undef m e)
      | inr other ↦ simp (down, other) (announce-HasQueue (code_to_index code) _ e)
    ]
    | inr other ↦ elim (Bool-cases (state == 0)) [
      | inl up ↦ simp (other, up) (data_ind_key_up-HasQueue code m e)
      | inr neither ↦ simp (other, neither) e
    ]
  ]

  handle_key-HasQueue :
      (bytes : List ℕ) (size : ℕ) (m : Machine)
      → HasQueue q m
      → Ensures (HasQueue q) (handle_key env bytes size m)
  unfolding handle_key
  handle_key-HasQueue bytes size m e =
      Ensures-after (HasQueue q) (assert (m.ld.magic0 == 0x15)) _ (λ _.
        elim (Bool-cases (size == 13)) [
          | inr other ↦ simp other e
          | inl whole ↦ simp whole (
              Ensures-after (HasQueue q) (in_bounds (get_elem? bytes 0)) _ (λ magic.
                elim (Bool-cases (magic == 0xa1)) [
                  | inr stray ↦ simp stray e
                  | inl report ↦ simp report (
                      Ensures-after (HasQueue q) (in_bounds (get_elem? bytes 11)) _ (λ state.
                        Ensures-after (HasQueue q) (in_bounds (get_elem? bytes 5)) _
                          (λ code. dispatch-HasQueue state code m e)))
                ]))
        ])

  -- A round of the default build.
  pub round-HasQueue :
      (qd : Option QueueData) (m : Machine)
      → HasQueue q m
      → Ensures (HasQueue q) (round false env qd m)
  unfolding round take_packet repeat_key
  round-HasQueue none m e = e
  round-HasQueue (some qd) m e =
      Ensures-bind (HasQueue q) (HasQueue q) (take_packet false env (some qd) m) _
        (Ensures-bind (HasQueue q) (HasQueue q) (handle_key env qd.buffer qd.size m) _
          (handle_key-HasQueue qd.buffer qd.size m e)
          (λ m1 e1. Ensures-after (HasQueue q) (queue_data_de_init qd) _ (λ _. e1)))
        (λ m1 e1. e1)
