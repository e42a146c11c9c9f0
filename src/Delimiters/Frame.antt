-- ===== src/Delimiters/Frame.antt =====
-- What fs_scan_delimiters finds where a buffer is one frame.
use trifecta_sdk.Common.{
  ℕ, ◌+◌, ◌≡◌, refl, ap, ◌∙◌, true, false, Option, none, some, List, [], ◌∷◌, ◌++◌, arith, ◌==◌,
  length,
}
use trifecta_sdk.Delimiters.{Scanner, scan_byte, all_found, scan_from, scan_delimiters}

-- A byte that is no delimiter.
abbrev pub IsPlainByte : ℕ → Type 0
IsPlainByte c =
    ((c == b':') ≡ false) × ((c == b'@') ≡ false) × ((c == b'!') ≡ false) × ((c == b';') ≡ false)

abbrev pub IsBody : List ℕ → Type 0
IsBody [] = Unit
IsBody (c ∷ cs) = IsPlainByte c × IsBody cs

scan_byte-plain : (i c : ℕ) (s : Scanner) → IsPlainByte c → scan_byte i c s ≡ s
unfolding scan_byte
scan_byte-plain i c s (n₁, n₂, n₃, n₄) = rw (n₁, n₂, n₃, n₄) refl

-- A round after which something is still to be found goes on.
pub scan_from-next :
    (c : ℕ) (rest : List ℕ) (i : ℕ) (s s' : Scanner)
    → scan_byte i c s ≡ s'
    → all_found s'.result ≡ false
    → scan_from (c ∷ rest) i s ≡ scan_from rest (i + 1) s'
unfolding scan_from
scan_from-next c rest i s s' e more =
    ap (λ t. elim (all_found t.result) [ true ↦ t.result | false ↦ scan_from rest (i + 1) t ]) e
    ∙ ap (λ b. elim b [ true ↦ s'.result | false ↦ scan_from rest (i + 1) s' ]) more

-- Bytes that are no delimiters change nothing.
pub scan_from-plain :
    (body rest : List ℕ) (i : ℕ) (s : Scanner)
    → IsBody body
    → all_found s.result ≡ false
    → scan_from (body ++ rest) i s ≡ scan_from rest (i + length body) s
scan_from-plain [] rest i s h more = ap (λ n. scan_from rest n s) (omega arith)
scan_from-plain (c ∷ cs) rest i s (hc, h) more =
    scan_from-next c (cs ++ rest) i s s (scan_byte-plain i c s hc) more
    ∙ scan_from-plain cs rest (i + 1) s h more
    ∙ ap (λ n. scan_from rest n s) (omega arith)

abbrev pub header_read : Option ℕ → Option ℕ → Scanner
header_read b64 bin = record {
  result = record {
    colon_index = none;
    binary_index = none;
    exclam_index = none;
    semicolon_index = none;
  };
  b64_candidate = b64;
  bin_candidate = bin;
}

-- The footer settles the header that was read.
scan_from-footer :
    (i : ℕ) (b64 bin : Option ℕ)
    → scan_from (b'!' ∷ []) i (header_read b64 bin) ≡ (record {
      colon_index = b64;
      binary_index = bin;
      exclam_index = some i;
      semicolon_index = none;
    })
unfolding scan_from scan_byte
scan_from-footer i none none = refl
scan_from-footer i none (some b) = refl
scan_from-footer i (some a) none = refl
scan_from-footer i (some a) (some b) = refl

-- fs_scan_delimiters on ':', a text and '!': the header at 0, the footer behind the text.
pub scan_delimiters-text :
    (body : List ℕ)
    → IsBody body
    → scan_delimiters (b':' ∷ (body ++ b'!' ∷ [])) ≡ (record {
      colon_index = some 0;
      binary_index = none;
      exclam_index = some (1 + length body);
      semicolon_index = none;
    })
unfolding scan_delimiters scan_byte
scan_delimiters-text body h =
    scan_from-next b':' (body ++ b'!' ∷ []) 0 (header_read none none) (header_read (some 0) none)
      refl refl
    ∙ scan_from-plain body (b'!' ∷ []) 1 (header_read (some 0) none) h refl
    ∙ scan_from-footer (1 + length body) (some 0) none

-- fs_scan_delimiters on '@', a binary packet without delimiters and '!'.
pub scan_delimiters-binary :
    (body : List ℕ)
    → IsBody body
    → scan_delimiters (b'@' ∷ (body ++ b'!' ∷ [])) ≡ (record {
      colon_index = none;
      binary_index = some 0;
      exclam_index = some (1 + length body);
      semicolon_index = none;
    })
unfolding scan_delimiters scan_byte
scan_delimiters-binary body h =
    scan_from-next b'@' (body ++ b'!' ∷ []) 0 (header_read none none) (header_read none (some 0))
      refl refl
    ∙ scan_from-plain body (b'!' ∷ []) 1 (header_read none (some 0)) h refl
    ∙ scan_from-footer (1 + length body) none (some 0)
