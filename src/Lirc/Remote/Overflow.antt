-- ===== src/Lirc/Remote/Overflow.antt =====
-- Release messages that are too long for `msg` of broadcastToLirc.
use bdremote_ng.Prelude.{
  ℕ, ◌+◌, ◌<◌, ◌≤◌, ◌≡◌, ◌∙◌, arith, refl, pos, true, false, some, ◌++◌, length, get_elem?, ltb, ok,
  stop, out_of_bounds, length-append, ◌>>=◌,
}
use bdremote_ng.Text.{CString}
use bdremote_ng.Sys.{Env}
use bdremote_ng.Keys.{KeyInfo, keys, keyup_code}
use bdremote_ng.Lirc.Broadcast.{message, broadcast_to_lirc}
use bdremote_ng.Lirc.Broadcast.Message.{length-message}
use bdremote_ng.Lirc.Remote.{
  Machine, key_at, name_of, broadcast, send_event, announce_release, released, data_ind_key_up,
  dispatch, handle_key,
}
use bdremote_ng.Lirc.Remote.Press.{IsReport, handle_key-dispatch}

-- The line does not fit.
broadcast-overflow :
    (env : Env) (name : CString) (m : Machine)
    → 78 ≤ length name
    → broadcast env name 0 keyup_code m ≡ stop out_of_bounds
unfolding broadcast broadcast_to_lirc
broadcast-overflow env name m long =
    let size = length-message keyup_code name (omega arith) in
    let over : ltb (length (message keyup_code 0 name)) 100 ≡ false = ground (arith, size) in
    rw over refl

module _ (env : Env) (m : Machine) {i : ℕ} {k : KeyInfo} {suffix bytes : CString} where
  -- Just the release message matters for what handleKey does.
  release_of :
      m.ld.magic0 ≡ 0x15
      → get_elem? keys i ≡ some k
      → m.ks.last_key ≡ pos i
      → m.ld.config.release ≡ some suffix
      → IsReport keyup_code 0 bytes
      → handle_key env bytes 13 m ≡ (
          announce_release env keyup_code k (some suffix) m
          >>= (λ m1. ok (released (send_event env k 0 m1))))
  unfolding dispatch data_ind_key_up key_at
  release_of magic at last configured r =
      handle_key-dispatch env m magic r ∙ simp (last, at, configured)

  -- When a key goes up whose name and the release suffix have together from 78 to 99 bytes, which
  -- DataInd_keyUp lets pass, the line of broadcastToLirc does not fit its array of 100 bytes; from
  -- 100 bytes on, no line is sent, and the key is released like one without a suffix.
  pub handle_key-overflow :
      m.ld.magic0 ≡ 0x15
      → get_elem? keys i ≡ some k
      → m.ks.last_key ≡ pos i
      → m.ld.config.release ≡ some suffix
      → IsReport keyup_code 0 bytes
      → let size = length (name_of m.ld.config k) + length suffix in
        (78 ≤ size → size < 100 → handle_key env bytes 13 m ≡ stop out_of_bounds)
        × (100 ≤ size → handle_key env bytes 13 m ≡ ok (released (send_event env k 0 m)))
  unfolding announce_release
  handle_key-overflow magic at last configured r =
      let e = release_of magic at last configured r in
      let name = name_of m.ld.config k in
      (
        (λ long short.
            let sent : ltb (length name + length suffix) 100 ≡ true = ground arith in
            let whole : 78 ≤ length (name ++ suffix) =
              omega (arith, long, length-append name suffix) in
            e ∙ rw (sent, broadcast-overflow env (name ++ suffix) m whole) refl),
        (λ longer.
            let not_sent : ltb (length name + length suffix) 100 ≡ false = ground arith in
            e ∙ rw not_sent refl),
      )
