-- ===== src/Logging.antt =====
-- src/l.c: where the log goes; and bdrGetFilename of src/globaldefs.c, which the log's headers use.
pub mod FileName
pub mod Masks
use bdremote_ng.Prelude.{
  ℕ, zero, suc, ◌+◌, ℤ, pos, minus_one, eq_ℤ, Bool, true, false, Option, none, some, List, [], ◌∷◌,
  drop, length, get_or, ltb, ◌==◌, if◌then◌else◌, Outcome, ok, stop, assertion,
}
use bdremote_ng.Text.{CString}
use bdremote_ng.Sys.{Env, Trace, perform, fopen, fclose}
use bdremote_ng.Config.{Configuration}

-- `printStream`
pub data Stream : Type 0 where
  null : Stream
  standard_output : Stream
  file : ℤ → Stream

-- setDefaultLog
unfoldable pub set_default_log : Stream
set_default_log = standard_output

-- setLogFile: the result, and the stream
unfoldable pub set_log_file : Env → Configuration → Stream → Trace → ℤ × Stream × Trace
set_log_file env c stream t =
    let (f, t1) = perform env (fopen c.log_filename) t in
    if c.log_filename_set
    then (if eq_ℤ f (pos 0) then (minus_one, stream, t1) else (pos 0, file f, t1))
    else (pos 0, stream, t)

-- closeLogFile
unfoldable pub close_log_file : Env → Stream → Trace → Stream × Trace
close_log_file env null t = (standard_output, (perform env (fclose (pos 0)) t).1)
close_log_file env standard_output t = (standard_output, t)
close_log_file env (file f) t = (standard_output, (perform env (fclose f) t).1)

-- the loop of bdrGetFilename: the last index below `bound` with a slash. The final NUL is no slash.
unfoldable pub last_slash : CString → (bound : ℕ) → Option ℕ
last_slash s zero = none
last_slash s (suc i) = let rest = last_slash s i in if get_or s i 0 == b'/' then some i else rest

-- `offset` at the end of the loop
unfoldable pub offset_of : CString → Option ℕ → ℕ
offset_of s none = 0
offset_of s (some i) = if ltb (i + 1) (length s) then i + 1 else i

-- bdrGetFilename; the result points into the argument
unfoldable pub bdr_get_filename : Option CString → Outcome CString
unfolding offset_of
bdr_get_filename none = stop assertion
bdr_get_filename (some s) = ok (drop (offset_of s (last_slash s (length s + 1))) s)
