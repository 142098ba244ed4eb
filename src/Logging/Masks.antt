-- ===== src/Logging/Masks.antt =====
-- src/globaldefs.h and src/globaldefs.c: the masks of the log, and the macros that write to it.
pub mod Written
use Prim.Native.Nat.{bit_and, bit_or}
use bdremote_ng.Prelude.{
  ℕ, pos, Bool, true, false, List, [], ◌∷◌, ◌++◌, ◌==◌, ◌&&◌, ◌||◌, if◌then◌else◌, some, Outcome,
  ok, ◌>>=◌,
}
use bdremote_ng.Text.{CString, codes, decimal}
use bdremote_ng.Logging.{bdr_get_filename}

-- the modules with a mask of their own
pub data Source : Type 0 where
  lirc_thr : Source
  lirc_sock : Source
  lirc_cb : Source
  bt_if : Source
  bt_impl : Source
  queue : Source
  spare : Source
  main : Source

-- MODULEMASK_*
abbrev pub module_mask : Source → ℕ
module_mask lirc_thr = 0x1
module_mask lirc_sock = 0x2
module_mask lirc_cb = 0x4
module_mask bt_if = 0x8
module_mask bt_impl = 0x10
module_mask queue = 0x20
module_mask spare = 0x40
module_mask main = 0x80

-- masks joined by `|`
unfoldable pub joined : List Source → ℕ
joined [] = 0
joined (m ∷ ms) = bit_or (module_mask m) (joined ms)

-- `globalLogMask`
unfoldable pub global_log_mask : ℕ
unfolding joined
global_log_mask =
    joined (lirc_thr ∷ lirc_sock ∷ lirc_cb ∷ bt_if ∷ bt_impl ∷ queue ∷ spare ∷ main ∷ [])

-- BDREMOTE_MASKCHECK
unfoldable pub mask_check : (global mask : ℕ) → Bool
mask_check global mask = bit_and global mask == mask

-- what localtime gives of a time
pub record Tm : Type 0 where
  pub tm_hour : ℕ
  pub tm_min : ℕ
  pub tm_sec : ℕ

-- getHour, getMinute and getSecond
unfoldable pub get_hour : (localtime : ℕ → Tm) → ℕ → ℕ
get_hour localtime t = (localtime t).tm_hour

unfoldable pub get_minute : (localtime : ℕ → Tm) → ℕ → ℕ
get_minute localtime t = (localtime t).tm_min

unfoldable pub get_second : (localtime : ℕ → Tm) → ℕ → ℕ
get_second localtime t = (localtime t).tm_sec

-- where a macro stands, and when it runs: __FILE__, __LINE__ and the result of time()
pub record Place : Type 0 where
  pub file : CString
  pub line : ℕ
  pub time : ℕ

module _ (localtime : ℕ → Tm) where
  -- the time stamp, `%d:%d:%d`
  unfoldable pub time_stamp : ℕ → CString
  unfolding get_hour get_minute get_second
  time_stamp t =
      decimal (pos (get_hour localtime t))
      ++ (codes ":"
          ++ (decimal (pos (get_minute localtime t))
              ++ (codes ":" ++ decimal (pos (get_second localtime t)))))

  -- BDREMOTE_DBG_HDR
  unfoldable pub dbg_hdr : Bool → Place → Outcome CString
  dbg_hdr enabled p = bdr_get_filename (some p.file) >>= λ name. ok (
      if enabled
      then name
        ++ (codes ":"
            ++ (decimal (pos p.line) ++ (codes " -> " ++ (time_stamp p.time ++ codes ":\n"))))
      else [])

  -- BDREMOTE_LOG, with what its second argument writes
  unfoldable pub bdremote_log : (global module_mask : ℕ) → Bool → Place → CString → Outcome CString
  bdremote_log global module_mask enabled p text =
      if enabled && mask_check global module_mask
      then dbg_hdr enabled p >>= (λ header. ok (header ++ text))
      else ok []

  -- BDREMOTE_DBG
  unfoldable pub bdremote_dbg : (global module_mask : ℕ) → Bool → Place → CString → Outcome CString
  bdremote_dbg global module_mask enabled p text =
      if enabled && mask_check global module_mask
      then dbg_hdr enabled p >>= (λ header. ok (header ++ (text ++ codes "\n")))
      else ok []

-- BDREMOTE_ERR
unfoldable pub bdremote_err : Place → CString → CString
bdremote_err p text =
    p.file ++ (codes ":" ++ (decimal (pos p.line) ++ (codes " -> ERROR: " ++ (text ++ codes "\n"))))
