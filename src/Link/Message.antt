-- ===== src/Link/Message.antt =====
-- The command texts that the driver prints, with printf's %c, %d and %s.
use trifecta_sdk.Common.{
  ℕ, zero, suc, ◌+◌, ◌-◌, ◌/◌, ◌%◌, List, [], ◌∷◌, ◌++◌, ltb, take, if◌then◌else◌,
}
use trifecta_sdk.Common.Int.{ℤ, pos, negsuc}

-- The decimal digits of a number, with fuel for each of them; `n + 1` digits are always enough.
unfoldable pub digits_of : ℕ → ℕ → List ℕ
digits_of zero n = []
digits_of (suc fuel) n =
    let rest = digits_of fuel (n / 10) ++ (48 + n % 10) ∷ [] in
    if ltb n 10 then (48 + n) ∷ [] else rest

-- `%d`.
unfoldable pub decimal : ℤ → List ℕ
unfolding digits_of
decimal (pos n) = digits_of (suc n) n
decimal (negsuc n) = b'-' ∷ digits_of (suc (suc n)) (suc n)

-- What `snprintf` leaves in a buffer of this size, less the NUL.
abbrev pub printed : ℕ → List ℕ → List ℕ
printed size text = take (size - 1) text

-- ";%c%d;".
unfoldable pub numeric : ℕ → ℤ → List ℕ
unfolding decimal
numeric cmd n = b';' ∷ cmd ∷ (decimal n ++ b';' ∷ [])

-- ";%c%s;".
unfoldable pub textual : ℕ → List ℕ → List ℕ
textual cmd text = b';' ∷ cmd ∷ (text ++ b';' ∷ [])
