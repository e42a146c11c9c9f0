-- ===== src/Commands/Atoi.antt =====
-- `atoi` of the C library, as the commands use it. A value out of the range of `int`, which C leaves
-- undefined, is not wrapped.
use trifecta_sdk.Common.{
  ℕ, zero, suc, ◌+◌, ◌-◌, ◌*◌, ◌&&◌, ◌||◌, Bool, List, [], ◌∷◌, leb, ◌==◌, if◌then◌else◌,
}
use trifecta_sdk.Common.Int.{ℤ, pos, negsuc}

unfoldable pub is_digit : ℕ → Bool
is_digit c = leb b'0' c && leb c b'9'

unfoldable pub is_space : ℕ → Bool
is_space c = c == 32 || (leb 9 c && leb c 13)

-- The digits that the text starts with, behind those of `n`.
unfoldable pub digits : List ℕ → ℕ → ℕ
digits [] n = n
digits (c ∷ cs) n = let rest = digits cs (10 * n + (c - b'0')) in if is_digit c then rest else n

unfoldable pub skip_space : List ℕ → List ℕ
skip_space [] = []
skip_space (c ∷ cs) = let rest = skip_space cs in if is_space c then rest else c ∷ cs

abbrev pub minus : ℕ → ℤ
minus zero = pos 0
minus (suc n) = negsuc n

unfoldable pub atoi : List ℕ → ℤ
unfolding digits skip_space
atoi s = elim (skip_space s) [
  | [] ↦ pos 0
  | c ∷ cs ↦
      if c == b'-'
      then minus (digits cs 0)
      else if c == b'+'
      then pos (digits cs 0)
      else pos (digits (c ∷ cs) 0)
]
