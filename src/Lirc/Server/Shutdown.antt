-- ===== src/Lirc/Server/Shutdown.antt =====
-- src/lirc_srv.c: what lirc_server leaves for destroyLircData.
use bdremote_ng.Prelude.{
  ◌≡◌, ◌≢◌, refl, arith, ℤ, pos, minus_one, true, false, List, [], ◌∷◌, eq_ℤ, eq_ℤ_iff, Bool-cases,
  inl, inr, ok, stop, assertion, ◌==◌,
}
use bdremote_ng.Sys.{Env, Trace, perform, socket, set_reuse_address, bind}
use bdremote_ng.Lirc.{LircData, destroy_lirc_data}
use bdremote_ng.Lirc.Clients.{clients}
use bdremote_ng.Lirc.Clients.Bounds.{IsTable, clients-add_client, remove_client-IsTable}
use bdremote_ng.Lirc.Server.{
  port_of, bound, create_listener, Round, no_event, connects, lirc_drops, server_round, serve, shut,
  served, lirc_server,
}

pub server_round-IsTable :
    (env : Env) (r : Round) (d : LircData) (t : Trace)
    → IsTable d
    → IsTable (server_round env r d t).0
unfolding server_round
server_round-IsTable env no_event d t v = v
server_round-IsTable env connects d t v = (clients-add_client env d t v).0
server_round-IsTable env (lirc_drops fd) d t v = remove_client-IsTable env d fd t v

pub serve-IsTable :
    (env : Env) (rs : List Round) (d : LircData) (t : Trace)
    → IsTable d
    → IsTable (serve env rs d t).0
unfolding serve
serve-IsTable env [] d t v = v
serve-IsTable env (r ∷ rs) d t v =
    serve-IsTable env rs (server_round env r d t).0 (server_round env r d t).1
      (server_round-IsTable env r d t v)

destroy-shut :
    (d : LircData) → d.clin ≡ 0 → eq_ℤ d.sockinet minus_one ≡ true → destroy_lirc_data d ≡ ok tt
unfolding destroy_lirc_data
destroy-shut d none_left gone = let e : (d.clin == 0) ≡ true = ground arith in simp (e, gone)

destroy-open :
    (d : LircData)
    → d.clin ≡ 0
    → eq_ℤ d.sockinet minus_one ≡ false
    → destroy_lirc_data d ≡ stop assertion
unfolding destroy_lirc_data
destroy-open d none_left there = let e : (d.clin == 0) ≡ true = ground arith in simp (e, there)

-- How lirc_server can end: the listener failed before or after its socket was made, or it served and
-- shut everything.
pub data Ended : ℤ × LircData × Trace → Type 0 where
  no_socket : {d : LircData} {t : Trace} → destroy_lirc_data d ≡ ok tt → Ended (minus_one, d, t)
  no_address :
      {d : LircData} {t : Trace}
      → d.sockinet ≢ minus_one
      → destroy_lirc_data d ≡ stop assertion
      → Ended (minus_one, d, t)
  shut_down :
      {d : LircData} {t : Trace}
      → IsTable d
      → clients d ≡ []
      → destroy_lirc_data d ≡ ok tt
      → Ended (pos 0, d, t)

shut-Ended :
    (env : Env) (d : LircData) (t : Trace)
    → IsTable d
    → Ended (pos 0, (shut env d t).0, (shut env d t).1)
unfolding shut
shut-Ended env d t v =
    shut_down (record { slots = v.slots; used = omega arith }) refl
      (destroy-shut (record d { clin = 0; sockinet = minus_one }) refl refl)

-- lirc_server, on a well-formed table without clients, which is what initLircData leaves, and
-- whoever connects to it or is dropped by the LIRC thread, ends in one of three ways: without a
-- socket, and then destroyLircData succeeds; without an address, and then an assert of
-- destroyLircData fails, since the closed socket is still named; or with BDREMOTE_OK, and then the
-- table is well formed, holds no client, and destroyLircData succeeds.
pub lirc_server-Ended :
    (env : Env) (rounds : List Round) (d : LircData) (t : Trace)
    → IsTable d
    → d.clin ≡ 0
    → Ended (lirc_server env rounds d t)
unfolding lirc_server create_listener bound served
lirc_server-Ended env rounds d t v none_yet =
    let (fd, t1) = perform env socket t in
    let d1 = record d { sockinet = fd } in
    let (r, t2) =
      perform env (bind fd (port_of d.config.listen_port))
        (perform env (set_reuse_address fd) t1).1 in
    elim (Bool-cases (eq_ℤ fd minus_one)) [
      | inl failed ↦ simp failed (no_socket (destroy-shut d1 none_yet failed))
      | inr made ↦ elim (Bool-cases (eq_ℤ r minus_one)) [
        | inl taken ↦
            simp (made, taken)
              (no_address (ground (arith, eq_ℤ_iff fd minus_one)) (destroy-open d1 none_yet made))
        | inr free ↦
            simp (made, free)
              (shut-Ended env (serve env rounds d1 _).0 (serve env rounds d1 _).1
                (serve-IsTable env rounds d1 _ (record { slots = v.slots; used = v.used })))
      ]
    ]
