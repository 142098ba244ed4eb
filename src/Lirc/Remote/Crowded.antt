-- ===== src/Lirc/Remote/Crowded.antt =====
-- src/lirc_srv.c and src/lirc_thr.c: a key that goes down when the table of clients is full.
use bdremote_ng.Prelude.{
  ℕ, ◌+◌, ◌≡◌, ◌∙◌, refl, arith, pos, true, false, some, List, get_elem?, ltb_ℤ, leb, ◌==◌, stop,
  assertion,
}
use bdremote_ng.Sys.{Env, Trace, accept}
use bdremote_ng.Keys.{KeyInfo, keys, keyup_code, code_to_index}
use bdremote_ng.Keys.Lookup.{code_to_index-code, key-Fits}
use bdremote_ng.Lirc.{LircData, max_clients}
use bdremote_ng.Lirc.Clients.{fd_setsize, add_client}
use bdremote_ng.Lirc.Broadcast.Fates.{broadcast_to_lirc-full}
use bdremote_ng.Lirc.Remote.{
  Machine, key_at, name_of, broadcast, announce, data_ind_key_down, dispatch, handle_key,
}
use bdremote_ng.Lirc.Remote.Press.{IsReport, handle_key-dispatch}
use bdremote_ng.Lirc.Remote.Thread.Safety.{IsReady, line_fits}

-- What add_client leaves of lirc_data when it fills the last slot.
record IsFullBut (d d1 : LircData) : Type 0 where
  full : d1.clin ≡ max_clients
  same_magic : d1.magic0 ≡ d.magic0
  same_config : d1.config ≡ d.config

add_client-IsFullBut :
    (env : Env) (d : LircData) (t : Trace)
    → d.clin + 1 ≡ max_clients
    → ltb_ℤ (env.answer t (accept d.sockinet)) (pos fd_setsize) ≡ true
    → IsFullBut d (add_client env d t).0
unfolding add_client
add_client-IsFullBut env d t last small =
    let free : leb max_clients d.clin ≡ false = ground arith in
    simp (small, free) (record { full = last; same_magic = refl; same_config = refl })

press-full :
    (env : Env) (m : Machine) (i : ℕ) (k : KeyInfo) {bytes : List ℕ}
    → m.ld.magic0 ≡ 0x15
    → m.ld.clin ≡ max_clients
    → get_elem? keys i ≡ some k
    → IsReport k.code 1 bytes
    → handle_key env bytes 13 m ≡ stop assertion
unfolding dispatch data_ind_key_down announce key_at broadcast
press-full env m i k magic full at r =
    let down : (k.code == keyup_code) ≡ false = ground (arith, (key-Fits i at).code_small) in
    let index : code_to_index k.code ≡ pos i = code_to_index-code i at in
    let failed =
      broadcast_to_lirc-full env m.ld (name_of m.ld.config k) 0 k.code m.device.trace full
        (line_fits m.ld.config i at) magic in
    handle_key-dispatch env m magic r ∙ simp (down, index, at, failed)

-- In a state that is ready for a packet (a well-formed table, all clients on distinct descriptors, a
-- release suffix of at most 61 bytes, a last key that is an index of the key table or undef), with
-- one slot of the table of clients left, let add_client get a client from accept() whose descriptor
-- is below FD_SETSIZE. On the report that key `i` of the table went down, handleKey then fails an
-- assert.
pub handle_key-full :
    (env : Env) (m : Machine) (t : Trace) (i : ℕ) (k : KeyInfo) (bytes : List ℕ)
    → IsReady m
    → m.ld.clin + 1 ≡ max_clients
    → ltb_ℤ (env.answer t (accept m.ld.sockinet)) (pos fd_setsize) ≡ true
    → get_elem? keys i ≡ some k
    → IsReport k.code 1 bytes
    → handle_key env bytes 13 (record m { ld = (add_client env m.ld t).0 }) ≡ stop assertion
handle_key-full env m t i k bytes v last small at r =
    let f : IsFullBut m.ld (add_client env m.ld t).0 = add_client-IsFullBut env m.ld t last small in
    press-full env (record m { ld = (add_client env m.ld t).0 }) i k (f.same_magic ∙ v.magic) f.full
      at r
