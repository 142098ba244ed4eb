-- ===== src/Lirc/Broadcast.antt =====
-- src/lirc_thr.c: broadcastToLirc.
pub mod Message
pub mod Line
pub mod Pass
pub mod Clients
pub mod Delivery
pub mod Fates
use bdremote_ng.Prelude.{
  ℕ, zero, suc, ◌+◌, ℤ, pos, minus_one, Bool, true, false, List, [], ◌∷◌, ◌++◌, length, get_or, ltb,
  ltb_ℤ, ◌==◌, if◌then◌else◌, Outcome, ok, stop, out_of_fuel, out_of_bounds, assert, ◌>>=◌, ◌>>◌,
}
use bdremote_ng.Text.{CString, codes, padded}
use bdremote_ng.Sys.{Env, Trace}
use bdremote_ng.Lirc.{LircData, max_clients}
use bdremote_ng.Lirc.Socket.{write_socket}
use bdremote_ng.Lirc.Clients.{remove_client}

-- `"%04X %02d %s %s\n"` with the last string "SonyBDRemote"; 32 is a blank and 10 the line feed.
unfoldable pub message : ℕ → ℕ → CString → CString
message code rep name =
    padded 16 4 code
    ++ (32 ∷ (padded 10 2 rep ++ (32 ∷ (name ++ (codes " SonyBDRemote" ++ (10 ∷ []))))))

-- `sprintf` into an array of `size` bytes, the last for the NUL
abbrev pub sprintf_into : ℕ → CString → Outcome CString
sprintf_into size s = if ltb (length s) size then ok s else stop out_of_bounds

-- Where the loop goes after a write with result `r`: the client at `i` is dropped and `i` stays, or
-- the next one follows.
unfoldable pub after_write : Env → ℕ → ℤ → LircData → ℕ → ℤ → Trace → LircData × ℕ × Trace
after_write env len fd d i r t =
    if ltb_ℤ r (pos len)
    then (let (d', t') = remove_client env d fd t in (d', i, t'))
    else (d, i + 1, t)

-- The loop over the clients from index `i` on; each round brings `i` nearer to `clin` by one.
unfoldable pub broadcast_loop :
    Env → CString → ℕ → ℕ → LircData → Trace → Outcome (LircData × Trace)
broadcast_loop env msg zero i d t = if ltb i d.clin then stop out_of_fuel else ok (d, t)
broadcast_loop env msg (suc rounds) i d t =
    if ltb i d.clin
    then write_socket env (get_or d.clis i minus_one) msg t >>= (λ p.
      let (d', i', t') = after_write env (length msg) (get_or d.clis i minus_one) d i p.0 p.1 in
      broadcast_loop env msg rounds i' d' t')
    else ok (d, t)

unfoldable pub broadcast_to_lirc :
    Env → LircData → CString → ℕ → ℕ → Trace → Outcome (LircData × Trace)
broadcast_to_lirc env d name rep code t = do
  msg ← sprintf_into 100 (message code rep name)
  assert (d.magic0 == 0x15)
  assert (ltb d.clin max_clients)
  broadcast_loop env msg d.clin 0 d t
