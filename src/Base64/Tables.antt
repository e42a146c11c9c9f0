-- ===== src/Base64/Tables.antt =====
-- The character table and the lookup table.
use trifecta_sdk.Common.{
  ℕ, ◌<◌, ◌≡◌, ◌≢◌, refl, true, ◌&&◌, ◌||◌, arith, ltb, ◌==◌, ==_iff, get_or, not, holds_below,
  holds_below-test,
}
use trifecta_sdk.Base64.{base64_chars, base64_lookup, base64_char_to_value, invalid}

abbrev pub char_of : ℕ → ℕ
char_of v = get_or base64_chars v 0

looked_up : holds_below (λ v. base64_char_to_value (char_of v) == v) 64 ≡ true
unfolding holds_below base64_chars base64_lookup base64_char_to_value
looked_up = refl

plain : holds_below (λ v. not (char_of v == b'=') && not (char_of v == 0)) 64 ≡ true
unfolding holds_below base64_chars
plain = refl

-- Every other byte looks up as invalid, and no value is as large as 64.
sorted :
    holds_below
      (λ c.
        base64_char_to_value c == invalid
        || (ltb (base64_char_to_value c) 64 && char_of (base64_char_to_value c) == c))
      256
    ≡ true
unfolding holds_below base64_chars base64_lookup base64_char_to_value
sorted = refl

-- Looking a character of the table up gives its position.
pub base64_char_to_value-char : (v : ℕ) → v < 64 → base64_char_to_value (char_of v) ≡ v
base64_char_to_value-char v h = (==_iff _ v).0 (holds_below-test _ _ v looked_up h)

-- No character of the table is '=' or NUL.
pub char_ne : (v : ℕ) → v < 64 → (char_of v ≢ b'=') × (char_of v ≢ 0)
char_ne v h =
    let p : (not (char_of v == b'=') && not (char_of v == 0)) ≡ true =
      holds_below-test _ _ v plain h in
    (ground arith, ground arith)

-- A byte that looks up as valid is the table's character at the position found.
pub char-base64_char_to_value :
    (c : ℕ)
    → c < 256
    → base64_char_to_value c ≢ invalid
    → (base64_char_to_value c < 64) × (char_of (base64_char_to_value c) ≡ c)
char-base64_char_to_value c h valid =
    let p : (base64_char_to_value c == invalid
          || (ltb (base64_char_to_value c) 64 && char_of (base64_char_to_value c) == c))
        ≡ true =
      holds_below-test _ _ c sorted h in
    (ground arith, ground arith)
