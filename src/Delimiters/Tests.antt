-- ===== src/Delimiters/Tests.antt =====
-- A buffer with a command and a frame.
use trifecta_sdk.Common.{ℕ, ◌≡◌, refl, some, none, List, [], ◌∷◌}
use trifecta_sdk.Delimiters.Soundness.{IsSound, scan_delimiters-IsSound}
use trifecta_sdk.Delimiters.{scan_byte, scan_from, scan_delimiters}

-- "I;:A!"
abbrev mixed : List ℕ
mixed = b'I' ∷ b';' ∷ b':' ∷ b'A' ∷ b'!' ∷ []

scan_mixed : scan_delimiters mixed ≡ (record {
  colon_index = some 2;
  binary_index = none;
  exclam_index = some 4;
  semicolon_index = some 1;
})
unfolding scan_delimiters scan_from scan_byte
scan_mixed = refl

scan_delimiters-IsSound_example : IsSound mixed (scan_delimiters mixed)
scan_delimiters-IsSound_example = scan_delimiters-IsSound mixed
