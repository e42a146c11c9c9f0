-- ===== src/CString/Tests.antt =====
-- Short strings.
use trifecta_sdk.Common.{◌≡◌, refl, [], ◌∷◌}
use trifecta_sdk.CString.{strncpy}

copy_short : strncpy (9 ∷ 9 ∷ 9 ∷ 9 ∷ []) (b'a' ∷ b'b' ∷ 0 ∷ []) 4 ≡ b'a' ∷ b'b' ∷ 0 ∷ 9 ∷ []
unfolding strncpy
copy_short = refl

copy_long : strncpy (9 ∷ 9 ∷ []) (b'a' ∷ b'b' ∷ 0 ∷ []) 2 ≡ b'a' ∷ 0 ∷ []
unfolding strncpy
copy_long = refl
