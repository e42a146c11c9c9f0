-- ===== src/Delimiters/Commands.antt =====
-- What fs_scan_delimiters finds in a buffer of commands.
use trifecta_sdk.Common.{
  ℕ, ◌+◌, ◌≡◌, refl, ap, ◌∙◌, inl, inr, ◌⊎◌, none, some, List, [], ◌∷◌, ◌++◌, arith, length,
}
use trifecta_sdk.Delimiters.Frame.{
  IsPlainByte, IsBody, header_read, scan_from-next, scan_from-plain,
}
use trifecta_sdk.Delimiters.{Indices, Scanner, scan_byte, scan_from, scan_delimiters}

-- Bytes that are no delimiter but ';'.
abbrev pub OnlyTerminators : List ℕ → Type 0
OnlyTerminators [] = Unit
OnlyTerminators (c ∷ cs) = (IsPlainByte c ⊎ (c ≡ b';')) × OnlyTerminators cs

-- What is found where the first ';' stands at `k` and there is no frame.
abbrev pub terminator_at : ℕ → Indices
terminator_at k = record {
  colon_index = none;
  binary_index = none;
  exclam_index = none;
  semicolon_index = some k;
}

abbrev read_to : ℕ → Scanner
read_to k = record { result = terminator_at k; b64_candidate = none; bin_candidate = none }

scan_byte-kept : (i c k : ℕ) → (IsPlainByte c ⊎ (c ≡ b';')) → scan_byte i c (read_to k) ≡ read_to k
unfolding scan_byte
scan_byte-kept i c k (inl (n₁, n₂, n₃, n₄)) = rw (n₁, n₂, n₃, n₄) refl
scan_byte-kept i c k (inr e) = rw e refl

scan_from-kept :
    (rest : List ℕ) (i k : ℕ)
    → OnlyTerminators rest
    → scan_from rest i (read_to k) ≡ terminator_at k
unfolding scan_from
scan_from-kept [] i k h = refl
scan_from-kept (c ∷ rest) i k (hc, h) =
    scan_from-next c rest i (read_to k) (read_to k) (scan_byte-kept i c k hc) refl
    ∙ scan_from-kept rest (i + 1) k h

-- fs_scan_delimiters on commands finds the end of the first one, and no frame.
pub scan_delimiters-commands :
    (body rest : List ℕ)
    → IsBody body
    → OnlyTerminators rest
    → scan_delimiters (body ++ b';' ∷ rest) ≡ terminator_at (length body)
unfolding scan_delimiters scan_byte
scan_delimiters-commands body rest h only =
    scan_from-plain body (b';' ∷ rest) 0 (header_read none none) h refl
    ∙ ap (λ n. scan_from (b';' ∷ rest) n (header_read none none)) zero_first
    ∙ scan_from-next b';' rest (length body) (header_read none none) (read_to (length body)) refl
        refl
    ∙ scan_from-kept rest (length body + 1) (length body) only
  where
    zero_first : 0 + length body ≡ length body
    zero_first = omega arith
