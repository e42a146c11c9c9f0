-- ===== src/CString/Copy.antt =====
-- What fs_safe_strncpy leaves in the destination.
use trifecta_sdk.Common.{
  ℕ, zero, suc, ◌+◌, ◌-◌, ◌≤◌, ◌<◌, ◌≡◌, refl, sym, ap, ◌∙◌, false, List, [], ◌∷◌, ◌++◌, append-nil,
  arith, ◌==◌, length, set, take, length-set, get_or-append_here, append-snoc, length-snoc,
  take-set_next,
}
use mathlib.Core.Path.{subst}
use trifecta_sdk.CString.{strncpy_from, strncpy}
use trifecta_sdk.CString.Laws.{NoNul}

-- The destination starts with the text and a NUL, and has the size it had.
abbrev pub Copied : List ℕ → List ℕ → List ℕ → Type 0
Copied text dest after =
    (take (length text + 1) after ≡ text ++ 0 ∷ []) × (length after ≡ length dest)

finish :
    (pre dest : List ℕ)
    → length pre < length dest
    → take (length pre) dest ≡ pre
    → Copied pre dest (set dest (length pre) 0)
finish pre dest fits e = (
  take-set_next dest (length pre) 0 fits ∙ ap (λ t. t ++ 0 ∷ []) e,
  length-set dest (length pre) 0,
)

strncpy_from-Copied :
    (n : ℕ) (cs pre rest dest : List ℕ)
    → NoNul cs
    → length pre + n < length dest
    → take (length pre) dest ≡ pre
    → Copied (pre ++ take n cs) dest (strncpy_from n dest (pre ++ (cs ++ 0 ∷ rest)) (length pre))
unfolding strncpy
strncpy_from-Copied zero cs pre rest dest h fits e =
    subst (λ t. Copied t dest (set dest (length pre) 0)) (sym (append-nil pre))
      (finish pre dest (omega arith) e)
strncpy_from-Copied (suc n) [] pre rest dest h fits e =
    rw (get_or-append_here pre rest 0 0, append-nil pre) (finish pre dest (omega arith) e)
strncpy_from-Copied (suc n) (c ∷ cs) pre rest dest (hc, h) fits e =
    let goes_on : (c == 0) ≡ false = ground arith in
    let dest' = set dest (length pre) c in
    let (starts, size) =
      strncpy_from-Copied n cs (pre ++ c ∷ []) rest dest' h
        (omega (arith, length-snoc pre c, length-set dest (length pre) c))
        (ap (λ k. take k dest') (sym (length-snoc pre c))
          ∙ take-set_next dest (length pre) c (omega arith)
          ∙ ap (λ t. t ++ c ∷ []) e) in
    rw
      (
        get_or-append_here pre (cs ++ 0 ∷ rest) c 0,
        goes_on,
        length-snoc pre c,
        append-snoc pre (cs ++ 0 ∷ rest) c,
        append-snoc pre (take n cs) c,
      )
      (starts, size ∙ length-set dest (length pre) c)

-- fs_safe_strncpy copies the text, cut to one character less than `maxlen`, and ends it with a NUL: for
-- a destination of `maxlen` bytes or more, whose size does not change.
pub strncpy-Copied :
    (cs rest dest : List ℕ) (maxlen : ℕ)
    → NoNul cs
    → 0 < maxlen
    → maxlen ≤ length dest
    → Copied (take (maxlen - 1) cs) dest (strncpy dest (cs ++ 0 ∷ rest) maxlen)
unfolding strncpy
strncpy-Copied cs rest dest maxlen h some_room fits =
    let some_length : (maxlen == 0) ≡ false = ground arith in
    rw some_length (strncpy_from-Copied (maxlen - 1) cs [] rest dest h (omega arith) refl)
