-- ===== src/Logging/Masks/Written.antt =====
-- Which messages are written, and what is written of them.
use Prim.Native.Nat.{bit_or}
use bdremote_ng.Prelude.{
  ℕ, ℕ_discrete, zero, suc, ◌<◌, ◌≡◌, ◌∙◌, sym, ap, refl, arith, ltb→lt, pos, Bool, true, false,
  Bool-cases, inl, inr, List, [], ◌∷◌, ◌++◌, ◌&&◌, ◌||◌, ltb, if◌then◌else◌, ok,
}
use bdremote_ng.Text.{CString, codes, decimal}
use bdremote_ng.Logging.FileName.{FileName, bdr_get_filename_lem}
use bdremote_ng.Logging.Masks.{
  Source, lirc_thr, lirc_sock, lirc_cb, bt_if, bt_impl, queue, spare, main, module_mask, joined,
  global_log_mask, mask_check, Tm, Place, time_stamp, dbg_hdr, bdremote_dbg,
}

abbrev same : Source → Source → Bool
same lirc_thr lirc_thr = true
same lirc_sock lirc_sock = true
same lirc_cb lirc_cb = true
same bt_if bt_if = true
same bt_impl bt_impl = true
same queue queue = true
same spare spare = true
same main main = true
same _ _ = false

-- whether a module is among those whose masks were joined
abbrev pub is_in : Source → List Source → Bool
is_in m [] = false
is_in m (n ∷ ns) = same m n || is_in m ns

abbrev sources : List Source
sources = lirc_thr ∷ lirc_sock ∷ lirc_cb ∷ bt_if ∷ bt_impl ∷ queue ∷ spare ∷ main ∷ []

abbrev bool_eq : Bool → Bool → Bool
bool_eq true b = b
bool_eq false true = false
bool_eq false false = true

all_of : List Source → (Source → Bool) → Bool
all_of [] p = true
all_of (m ∷ ms) p = p m && all_of ms p

and_both : (a b : Bool) → (a && b) ≡ true → (a ≡ true) × (b ≡ true)
and_both a b e = ground arith

each_below : (ℕ → Bool) → ℕ → Bool
each_below test zero = true
each_below test (suc bound) = each_below test bound && test bound

each_below-holds :
    (test : ℕ → Bool) (bound g : ℕ) → g < bound → each_below test bound ≡ true → test g ≡ true
unfolding each_below
each_below-holds test zero g below e = elim below [ ]
each_below-holds test (suc bound) g below e =
    let (before, last) = and_both (each_below test bound) (test bound) e in
    elim (ℕ_discrete g bound) [
      | yes here ↦ rw here last
      | no other ↦ each_below-holds test bound g (omega arith) before
    ]

all_of_sound : (m : Source) (p : Source → Bool) → all_of sources p ≡ true → p m ≡ true
unfolding all_of
all_of_sound m p h = ground arith

-- Joining one more mask, below a byte.
adds_one : ℕ → Source → Source → Bool
unfolding mask_check
adds_one g n m =
    bool_eq (mask_check (bit_or (module_mask n) g) (module_mask m))
      (same m n || mask_check g (module_mask m))
    && ltb (bit_or (module_mask n) g) 256

adds_one_table : each_below (λ g. all_of sources (λ n. all_of sources (adds_one g n))) 256 ≡ true
unfolding each_below all_of adds_one
adds_one_table = refl

adds_one_all : (g : ℕ) (n m : Source) → g < 256 → adds_one g n m ≡ true
adds_one_all g n m below = all_of_sound m (adds_one g n) (
    all_of_sound n (λ n. all_of sources (adds_one g n))
      (each_below-holds (λ g. all_of sources (λ n. all_of sources (adds_one g n))) 256 g below
        adds_one_table))

bool_eq-eq : (a b : Bool) → bool_eq a b ≡ true → a ≡ b
bool_eq-eq true b e = sym e
bool_eq-eq false true e = cc
bool_eq-eq false false e = refl

joined-step :
    (g : ℕ) (n m : Source)
    → g < 256
    → (mask_check (bit_or (module_mask n) g) (module_mask m)
        ≡ (same m n || mask_check g (module_mask m)))
      × (bit_or (module_mask n) g < 256)
unfolding adds_one
joined-step g n m below =
    let (e, lt) = and_both _ _ (adds_one_all g n m below) in (bool_eq-eq _ _ e, ltb→lt _ _ lt)

joined-lt : (ms : List Source) → joined ms < 256
unfolding joined
joined-lt [] = omega arith
joined-lt (n ∷ ms) = (joined-step (joined ms) n n (joined-lt ms)).1

none_set : (m : Source) → mask_check 0 (module_mask m) ≡ false
unfolding mask_check all_of
none_set m =
    bool_eq-eq _ _ (all_of_sound m (λ m. bool_eq (mask_check 0 (module_mask m)) false) refl)

mask_check-joined :
    (ms : List Source) (m : Source) → mask_check (joined ms) (module_mask m) ≡ is_in m ms
unfolding joined
mask_check-joined [] m = none_set m
mask_check-joined (n ∷ ms) m =
    (joined-step (joined ms) n m (joined-lt ms)).0
    ∙ ap (λ b. same m n || b) (mask_check-joined ms m)

-- Whatever modules the log mask is joined of, a message of a module is written exactly if messages
-- are enabled and the module is one of them. It stands below a line with the name of the source file
-- without its directories, the line number and the time of day, and ends its own line.
pub bdremote_dbg-written :
    (localtime : ℕ → Tm) (ms : List Source) (m : Source) (enabled : Bool) (p : Place)
    (text : CString)
    → (name : CString) × FileName p.file name
      × (bdremote_dbg localtime (joined ms) (module_mask m) enabled p text
          ≡ ok (
              if enabled && is_in m ms
              then (name
                  ++ (codes ":"
                      ++ (decimal (pos p.line)
                          ++ (codes " -> " ++ (time_stamp localtime p.time ++ codes ":\n")))))
                ++ (text ++ codes "\n")
              else []))
unfolding bdremote_dbg dbg_hdr
bdremote_dbg-written localtime ms m false p text =
    let (name, f, e) = bdr_get_filename_lem p.file in (name, f, refl)
bdremote_dbg-written localtime ms m true p text =
    let (name, f, e) = bdr_get_filename_lem p.file in
    elim (Bool-cases (is_in m ms)) [
      | inl listed ↦ (name, f, simp (mask_check-joined ms m, listed) (rw (e, dbg_hdr) refl))
      | inr other ↦ (name, f, simp (mask_check-joined ms m, other))
    ]

-- With the mask that the program has, these are all modules.
pub global-is_all : (m : Source) → mask_check global_log_mask (module_mask m) ≡ true
unfolding global_log_mask
global-is_all m = mask_check-joined sources m ∙ every m
  where
    every : (m : Source) → is_in m sources ≡ true
    every m = ground arith
