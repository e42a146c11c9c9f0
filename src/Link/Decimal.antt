-- ===== src/Link/Decimal.antt =====
-- The numbers that the driver prints, read back by `atoi`.
use trifecta_sdk.Common.{
  ℕ, zero, suc, ◌+◌, ◌-◌, ◌*◌, length, length-append, replicate, ◌/◌, ◌%◌, ◌^◌, ◌≤◌, ◌<◌, ◌≡◌, refl,
  ap, ◌∙◌, inl, inr, false, List, [], ◌∷◌, ◌++◌, ltb, ◌==◌, arith, Bool-cases, ltb→lt, lt→ltb,
}
use trifecta_sdk.Common.Int.{ℤ, pos, negsuc}
use trifecta_sdk.Commands.Atoi.{atoi, minus, digits, is_digit, is_space}
use trifecta_sdk.Link.Message.{digits_of, decimal}

-- Decimal digits only.
abbrev pub AllDigits : List ℕ → Type 0
AllDigits [] = Unit
AllDigits (c ∷ cs) = ((48 ≤ c) × (c ≤ 57)) × AllDigits cs

AllDigits-append : (xs ys : List ℕ) → AllDigits xs → AllDigits ys → AllDigits (xs ++ ys)
AllDigits-append [] ys h h' = h'
AllDigits-append (x ∷ xs) ys h h' = (h.0, AllDigits-append xs ys h.1 h')

digits-append :
    (xs ys : List ℕ) (a : ℕ) → AllDigits xs → digits (xs ++ ys) a ≡ digits ys (digits xs a)
unfolding digits is_digit
digits-append [] ys a h = refl
digits-append (x ∷ xs) ys a h = ground (arith, h.0, digits-append xs ys (10 * a + (x - 48)) h.1)

pub digits_of-AllDigits : (fuel n : ℕ) → AllDigits (digits_of fuel n)
unfolding digits_of
digits_of-AllDigits zero n = tt
digits_of-AllDigits (suc fuel) n = elim (Bool-cases (ltb n 10)) [
  | inl small ↦ rw small ((omega arith, omega (arith, ltb→lt n 10 small)), tt)
  | inr large ↦ rw large (
      AllDigits-append (digits_of fuel (n / 10)) ((48 + n % 10) ∷ [])
        (digits_of-AllDigits fuel (n / 10)) ((omega arith, omega arith), tt))
]

one_digit : (d a : ℕ) → d < 10 → digits ((48 + d) ∷ []) a ≡ 10 * a + d
unfolding digits is_digit
one_digit d a h = ground arith

digits-digits_of : (fuel n : ℕ) → n < fuel → digits (digits_of fuel n) 0 ≡ n
unfolding digits_of
digits-digits_of zero n h = absurd (omega arith)
digits-digits_of (suc fuel) n h = elim (Bool-cases (ltb n 10)) [
  | inl small ↦ rw small (one_digit n 0 (ltb→lt n 10 small) ∙ omega arith)
  | inr large ↦
      let big : 10 ≤ n = ground (arith, large) in
      rw large (
        digits-append (digits_of fuel (n / 10)) ((48 + n % 10) ∷ []) 0
          (digits_of-AllDigits fuel (n / 10))
        ∙ one_digit (n % 10) (digits (digits_of fuel (n / 10)) 0) (omega arith)
        ∙ omega (arith, digits-digits_of fuel (n / 10) (omega arith)))
]

digits-blank : (k a : ℕ) → digits (replicate k 0) a ≡ a
unfolding digits is_digit
digits-blank zero a = refl
digits-blank (suc k) a = refl

digits-printed : (fuel n k : ℕ) → n < fuel → digits (digits_of fuel n ++ replicate k 0) 0 ≡ n
digits-printed fuel n k h =
    digits-append (digits_of fuel n) (replicate k 0) 0 (digits_of-AllDigits fuel n)
    ∙ digits-blank k (digits (digits_of fuel n) 0)
    ∙ digits-digits_of fuel n h

length-digits_of : (fuel n : ℕ) → 0 < length (digits_of (suc fuel) n)
unfolding digits_of
length-digits_of fuel n = elim (Bool-cases (ltb n 10)) [
  | inl small ↦ rw small (omega arith)
  | inr large ↦
      rw large (omega (arith, length-append (digits_of fuel (n / 10)) ((48 + n % 10) ∷ [])))
]

atoi-digits :
    (xs rest : List ℕ)
    → 0 < length xs
    → AllDigits xs
    → atoi (xs ++ rest) ≡ pos (digits (xs ++ rest) 0)
unfolding atoi is_space
atoi-digits [] rest some_digits h = absurd (omega arith)
atoi-digits (x ∷ xs) rest some_digits h =
    let no_space : is_space x ≡ false = ground (arith, h.0) in
    let no_minus : (x == b'-') ≡ false = ground (arith, h.0) in
    let no_plus : (x == b'+') ≡ false = ground (arith, h.0) in
    rw (no_space, atoi, no_minus, no_plus) refl

atoi-minus : (cs : List ℕ) → atoi (b'-' ∷ cs) ≡ minus (digits cs 0)
unfolding atoi is_space
atoi-minus cs = refl

-- `atoi` reads back what "%d" prints, in front of NULs.
pub atoi-decimal : (n : ℤ) (k : ℕ) → atoi (decimal n ++ replicate k 0) ≡ n
unfolding decimal
atoi-decimal (pos n) k =
    atoi-digits (digits_of (suc n) n) (replicate k 0) (length-digits_of n n)
      (digits_of-AllDigits (suc n) n)
    ∙ ap pos (digits-printed (suc n) n k (omega arith))
atoi-decimal (negsuc n) k =
    atoi-minus (digits_of (suc (suc n)) (suc n) ++ replicate k 0)
    ∙ ap minus (digits-printed (suc (suc n)) (suc n) k (omega arith))

-- 10 to a power.
abbrev pub pow10 : ℕ → ℕ
pow10 zero = 1
pow10 (suc k) = 10 * pow10 k

length-digits_of_le : (fuel n k : ℕ) → n < pow10 (suc k) → length (digits_of fuel n) ≤ suc k
unfolding digits_of
length-digits_of_le zero n k h = omega arith
length-digits_of_le (suc fuel) n zero h = rw (lt→ltb n 10 (omega arith)) (omega arith)
length-digits_of_le (suc fuel) n (suc k) h = elim (Bool-cases (ltb n 10)) [
  | inl small ↦ rw small (omega arith)
  | inr large ↦ rw large (
      omega (
        arith,
        length-append (digits_of fuel (n / 10)) ((48 + n % 10) ∷ []),
        length-digits_of_le fuel (n / 10) k (omega arith),
      ))
]

-- A value of `int`.
abbrev pub IsInt : ℤ → Type 0
IsInt (pos n) = n < 2 ^ 31
IsInt (negsuc n) = n < 2 ^ 31

-- It prints as 11 characters at most.
pub length-decimal : (n : ℤ) → IsInt n → length (decimal n) ≤ 11
unfolding decimal
length-decimal (pos n) h = omega (arith, length-digits_of_le (suc n) n 9 (omega arith))
length-decimal (negsuc n) h =
    omega (arith, length-digits_of_le (suc (suc n)) (suc n) 9 (omega arith))
