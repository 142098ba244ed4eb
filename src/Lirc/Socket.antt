-- ===== src/Lirc/Socket.antt =====
-- src/lirc_util.c: write_socket and nolinger.
pub mod Whole
use bdremote_ng.Prelude.{
  ℕ, zero, suc, ℤ, pos, negsuc, List, [], ◌∷◌, length, drop, ◌==◌, ltb, if◌then◌else◌, Outcome, ok,
  stop, out_of_bounds, out_of_fuel,
}
use bdremote_ng.Sys.{Env, Trace, perform, write, set_no_linger}

-- The answer of one write(): done, with the rest of the buffer to write, or an end with a result.
-- A count beyond the buffer would make the loop go on past its end.
pub data Progress : Type 0 where
  more : List ℕ → Progress
  ended : ℤ → Progress
  overrun : Progress

unfoldable pub progress : List ℕ → ℤ → Progress
progress buf (negsuc n) = ended (negsuc n)
progress buf (pos zero) = ended (pos zero)
progress buf (pos (suc n)) = if ltb (length buf) (suc n) then overrun else more (drop (suc n) buf)

module _ (env : Env) (fd : ℤ) (len : ℕ) where
  -- the loop, with `buf` the bytes from `_buf` on, so that `todo` is their number
  unfoldable pub write_loop : ℕ → List ℕ → Trace → Outcome (ℤ × Trace)
  write_loop rounds [] t = ok (pos len, t)
  write_loop zero (b ∷ buf) t = stop out_of_fuel
  write_loop (suc rounds) (b ∷ buf) t =
      let (r, t') = perform env (write fd (b ∷ buf)) t in
      elim (progress (b ∷ buf) r) [
        | more rest ↦ write_loop rounds rest t'
        | ended result ↦ ok (result, t')
        | overrun ↦ stop out_of_bounds
      ]

-- write_socket; each round writes at least one byte, so `length buf` rounds are enough
unfoldable pub write_socket : Env → ℤ → List ℕ → Trace → Outcome (ℤ × Trace)
write_socket env fd buf t = write_loop env fd (length buf) (length buf) buf t

-- The result of setsockopt is not looked at.
unfoldable pub nolinger : Env → ℤ → Trace → Trace
nolinger env fd t = (perform env (set_no_linger fd) t).1
