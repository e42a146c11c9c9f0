-- ===== src/CString/Laws.antt =====
-- fs_safe_strnlen on a text.
use trifecta_sdk.Common.{
  ℕ, zero, suc, ◌+◌, ◌≤◌, ◌<◌, ◌≡◌, ◌≢◌, ◌∙◌, List, [], ◌∷◌, ◌++◌, arith, length,
  get_or-append_here, append-snoc, length-snoc,
}
use trifecta_sdk.CString.{strnlen_from, strnlen}

-- No character of the list is NUL.
abbrev pub NoNul : List ℕ → Type 0
NoNul [] = Unit
NoNul (c ∷ cs) = (c ≢ 0) × NoNul cs

strnlen_from_bounds :
    (n : ℕ) (s : List ℕ) (i : ℕ) → (i ≤ strnlen_from n s i) × (strnlen_from n s i ≤ i + n)
unfolding strnlen
strnlen_from_bounds zero s i = omega arith
strnlen_from_bounds (suc n) s i = ground (arith, strnlen_from_bounds n s (i + 1))

pub strnlen-le : (s : List ℕ) (n : ℕ) → strnlen s n ≤ n
unfolding strnlen
strnlen-le s n = omega (arith, strnlen_from_bounds n s 0)

strnlen_from_text :
    (cs pre rest : List ℕ) (n : ℕ)
    → NoNul cs
    → length cs < n
    → strnlen_from n (pre ++ (cs ++ 0 ∷ rest)) (length pre) ≡ length pre + length cs
unfolding strnlen
strnlen_from_text cs pre rest zero h lt = absurd (omega arith)
strnlen_from_text [] pre rest (suc n) h lt = rw (get_or-append_here pre rest 0 0) (omega arith)
strnlen_from_text (c ∷ cs) pre rest (suc n) h lt =
    rw
      (
        get_or-append_here pre (cs ++ 0 ∷ rest) c 0,
        length-snoc pre c,
        append-snoc pre (cs ++ 0 ∷ rest) c,
      )
      (ground (
        arith,
        h.0,
        strnlen_from_text cs (pre ++ c ∷ []) rest n h.1 (omega arith),
        length-snoc pre c,
      ))

-- fs_safe_strnlen is the length of a text that ends before the limit.
pub strnlen_text :
    (cs rest : List ℕ) (n : ℕ) → NoNul cs → length cs < n → strnlen (cs ++ 0 ∷ rest) n ≡ length cs
unfolding strnlen
strnlen_text cs rest n h lt = strnlen_from_text cs [] rest n h lt ∙ omega arith
