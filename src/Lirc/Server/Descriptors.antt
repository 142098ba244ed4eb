-- ===== src/Lirc/Server/Descriptors.antt =====
-- src/lirc_srv.c: the descriptors that lirc_server opens, the listener and the clients.
use bdremote_ng.Prelude.{
  ℕ, ◌≡◌, refl, arith, ℤ, pos, minus_one, eq_ℤ, eq_ℤ_iff, ap, ◌∙◌, List, [], ◌∷◌, take, Bool-cases,
  inl, inr,
}
use bdremote_ng.Sys.{Env, Trace, perform, socket, set_reuse_address, bind, listen, accept}
use bdremote_ng.Sys.Descriptors.{one_if, holding, IsBalanced}
use bdremote_ng.Lirc.{LircData}
use bdremote_ng.Lirc.Clients.{clients, hang_up, add_client, remove_client, is_rejected}
use bdremote_ng.Lirc.Socket.{nolinger}
use bdremote_ng.Lirc.Clients.Table.{remove_client-SameBesideTable}
use bdremote_ng.Lirc.Clients.Bounds.{IsTable}
use bdremote_ng.Lirc.Clients.Descriptors.{
  hang_up-IsBalanced, nolinger-IsBalanced, add_client-IsBalanced, remove_client-IsBalanced,
}
use bdremote_ng.Lirc.Server.{
  port_of, bound, create_listener, Round, no_event, connects, lirc_drops, server_round, serve,
  hang_up_all, shut, served, lirc_server,
}
use bdremote_ng.Lirc.Server.Shutdown.{server_round-IsTable}

module _ (env : Env) (n : ℕ) where
  server_round-IsBalanced :
      (r : Round) (d : LircData) (t : Trace)
      → IsTable d
      → let (d', t') = server_round env r d t in IsBalanced (pos n) (clients d) t (clients d') t'
  unfolding server_round
  server_round-IsBalanced no_event d t v = refl
  server_round-IsBalanced connects d t v = add_client-IsBalanced env d t n v
  server_round-IsBalanced (lirc_drops fd) d t v =
      remove_client-IsBalanced env d fd t n (omega (arith, v.slots, v.used))

  serve-IsBalanced :
      (rs : List Round) (d : LircData) (t : Trace)
      → IsTable d
      → let (d', t') = serve env rs d t in IsBalanced (pos n) (clients d) t (clients d') t'
  unfolding serve
  serve-IsBalanced [] d t v = refl
  serve-IsBalanced (r ∷ rs) d t v =
      let (d1, t1) = server_round env r d t in
      omega (
        arith,
        server_round-IsBalanced r d t v,
        serve-IsBalanced rs d1 t1 (server_round-IsTable env r d t v),
      )

  hang_up_all-IsBalanced :
      (fds : List ℤ) (t : Trace) → IsBalanced (pos n) fds t [] (hang_up_all env fds t)
  unfolding hang_up_all
  hang_up_all-IsBalanced [] t = refl
  hang_up_all-IsBalanced (fd ∷ fds) t =
      omega (arith, hang_up-IsBalanced env fd t n, hang_up_all-IsBalanced fds (hang_up env fd t))

  -- the listener and the clients are closed
  shut-IsBalanced :
      (d : LircData) (t : Trace) → IsBalanced (pos n) (d.sockinet ∷ clients d) t [] (shut env d t).1
  unfolding shut
  shut-IsBalanced d t = omega (
    arith,
    hang_up_all-IsBalanced (clients d) t,
    hang_up-IsBalanced env d.sockinet (hang_up_all env (clients d) t) n,
  )

-- The rounds leave the listener as it is.
add_client-sockinet :
    (env : Env) (d : LircData) (t : Trace) → (add_client env d t).0.sockinet ≡ d.sockinet
unfolding add_client
add_client-sockinet env d t =
    elim (Bool-cases (is_rejected (env.answer t (accept d.sockinet)) d.clin)) [
      | inl rejected ↦ simp rejected
      | inr taken ↦ simp taken
    ]

serve-sockinet :
    (env : Env) (rs : List Round) (d : LircData) (t : Trace)
    → (serve env rs d t).0.sockinet ≡ d.sockinet
unfolding serve server_round
serve-sockinet env [] d t = refl
serve-sockinet env (no_event ∷ rs) d t = serve-sockinet env rs d t
serve-sockinet env (connects ∷ rs) d t =
    serve-sockinet env rs (add_client env d t).0 (add_client env d t).1
    ∙ add_client-sockinet env d t
serve-sockinet env (lirc_drops fd ∷ rs) d t =
    serve-sockinet env rs (remove_client env d fd t).0 (remove_client env d fd t).1
    ∙ ap (λ (x : LircData). x.sockinet) (remove_client-SameBesideTable env d fd t)

-- Whatever the calls answer, and whoever connects or is dropped meanwhile, lirc_server, on a
-- well-formed table without clients, closes each descriptor as often as its calls opened it: the
-- listener and every client, those that it refuses included, whichever of its results it has.
pub lirc_server-closes :
    (env : Env) (rounds : List Round) (d : LircData) (t : Trace) (n : ℕ)
    → IsTable d
    → d.clin ≡ 0
    → IsBalanced (pos n) [] t [] (lirc_server env rounds d t).2
unfolding lirc_server create_listener bound served
lirc_server-closes env rounds d t n v none_yet =
    let (fd, t1) = perform env socket t in
    let d1 = record d { sockinet = fd } in
    let (r, t2) =
      perform env (bind fd (port_of d.config.listen_port))
        (perform env (set_reuse_address fd) t1).1 in
    elim (Bool-cases (eq_ℤ fd minus_one)) [
      | inl failed ↦
          simp failed
            (omega (arith, ap (λ g. one_if (eq_ℤ g (pos n))) ((eq_ℤ_iff fd minus_one).0 failed)))
      | inr made ↦ elim (Bool-cases (eq_ℤ r minus_one)) [
        | inl taken ↦ simp (made, taken) (omega arith)
        | inr free ↦
            simp (made, free)
              (let t3 = nolinger env fd (perform env (listen fd) t2).1 in
                let (d2, t4) = serve env rounds d1 t3 in
                omega (
                  arith,
                  nolinger-IsBalanced env fd (perform env (listen fd) t2).1 n,
                  ap (λ k. holding (pos n) (take k d.clis)) none_yet,
                  serve-IsBalanced env n rounds d1 t3 (record { slots = v.slots; used = v.used }),
                  ap (λ g. one_if (eq_ℤ g (pos n))) (serve-sockinet env rounds d1 t3),
                  shut-IsBalanced env n d2 t4,
                ))
      ]
    ]
