-- ===== src/Base64/Encoding.antt =====
-- What fs_base64_encode writes: its length and its characters.
use trifecta_sdk.Common.{
  ℕ, ◌+◌, ◌-◌, ◌<◌, ◌≡◌, refl, ap, inl, inr, none, some, List, [], ◌∷◌, ◌++◌, append-nil, arith,
  ltb, length, if◌then◌else◌, Bool-cases, length-append,
}
use trifecta_sdk.Base64.{quad, encode_groups, encoded_length, base64_encode}
use trifecta_sdk.Base64.Tables.{char_of}

length-quad : (a b c : ℕ) → length (quad a b c) ≡ 4
unfolding quad
length-quad a b c = refl

pub length-encode_groups : (xs : List ℕ) → length (encode_groups xs) ≡ encoded_length (length xs)
unfolding encode_groups
length-encode_groups [] = omega arith
length-encode_groups (a ∷ []) = omega (arith, length-quad a 0 0)
length-encode_groups (a ∷ b ∷ []) = omega (arith, length-quad a b 0)
length-encode_groups (a ∷ b ∷ c ∷ rest) = omega (
  arith,
  length-append (quad a b c) (encode_groups rest),
  length-quad a b c,
  length-encode_groups rest,
)

-- fs_base64_encode refuses a buffer that cannot hold the text and its NUL, and otherwise writes the
-- groups alone: its padding loop never runs.
pub base64_encode_lem :
    (xs : List ℕ) (buffer_size : ℕ)
    → base64_encode xs buffer_size
      ≡ (if ltb buffer_size (encoded_length (length xs) + 1) then none else some (encode_groups xs))
unfolding base64_encode
base64_encode_lem xs n = elim (Bool-cases (ltb n (encoded_length (length xs) + 1))) [
  | inl small ↦ rw small refl
  | inr fits ↦ rw fits (
      let full : encoded_length (length xs) - length (encode_groups xs) ≡ 0 =
        omega (arith, length-encode_groups xs) in
      rw full (ap some (append-nil (encode_groups xs))))
]

-- Every character of the text is one of the table's 64.
abbrev pub IsText : List ℕ → Type 0
IsText [] = Unit
IsText (c ∷ cs) = ((v : ℕ) × (v < 64) × (c ≡ char_of v)) × IsText cs

IsText-append : (xs ys : List ℕ) → IsText xs → IsText ys → IsText (xs ++ ys)
IsText-append [] ys hx hy = hy
IsText-append (x ∷ xs) ys hx hy = (hx.0, IsText-append xs ys hx.1 hy)

quad-IsText : (a b c : ℕ) → IsText (quad a b c)
unfolding quad
quad-IsText a b c = (
  (_, omega arith, refl),
  ((_, omega arith, refl), ((_, omega arith, refl), ((_, omega arith, refl), tt))),
)

pub encode_groups-IsText : (xs : List ℕ) → IsText (encode_groups xs)
unfolding encode_groups
encode_groups-IsText [] = tt
encode_groups-IsText (a ∷ []) = quad-IsText a 0 0
encode_groups-IsText (a ∷ b ∷ []) = quad-IsText a b 0
encode_groups-IsText (a ∷ b ∷ c ∷ rest) =
    IsText-append (quad a b c) (encode_groups rest) (quad-IsText a b c) (encode_groups-IsText rest)
