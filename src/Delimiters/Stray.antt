-- ===== src/Delimiters/Stray.antt =====
-- What fs_scan_delimiters finds where a footer stands before every header.
use trifecta_sdk.Common.{
  ℕ, ◌+◌, ◌<◌, ◌≡◌, refl, sym, ap, ◌∙◌, inl, inr, Bool, true, false, ◌&&◌, Option, none, some, List,
  [], ◌∷◌, ◌++◌, arith, ◌==◌, length, Bool-cases,
}
use mathlib.Core.Path.{subst}
use trifecta_sdk.Delimiters.Frame.{IsBody, header_read, scan_from-next, scan_from-plain}
use trifecta_sdk.Delimiters.{
  Indices, Scanner, found, settle, scan_byte, all_found, scan_from, scan_delimiters,
}

-- Nothing, or an index behind the footer.
abbrev pub Beyond : ℕ → Option ℕ → Type 0
Beyond e none = Unit
Beyond e (some i) = e < i

-- The footer is found at `e`, headers only behind it, and no command's end.
pub record IsStray (e : ℕ) (r : Indices) : Type 0 where
  pub exclam : r.exclam_index ≡ some e
  pub colon : Beyond e r.colon_index
  pub binary : Beyond e r.binary_index
  pub semicolon : r.semicolon_index ≡ none

record Astray (e : ℕ) (s : Scanner) : Type 0 where
  result : IsStray e s.result
  b64 : Beyond e s.b64_candidate
  bin : Beyond e s.bin_candidate

-- No command ends in the bytes.
abbrev pub NoTerminator : List ℕ → Type 0
NoTerminator [] = Unit
NoTerminator (c ∷ cs) = ((c == b';') ≡ false) × NoTerminator cs

settle-Beyond :
    (e : ℕ) (o candidate : Option ℕ)
    → Beyond e o
    → Beyond e candidate
    → Beyond e (settle o candidate)
settle-Beyond e none candidate h hc = hc
settle-Beyond e (some i) candidate h hc = h

scan_byte-Astray :
    (e i c : ℕ) (s : Scanner)
    → e < i
    → (c == b';') ≡ false
    → Astray e s
    → Astray e (scan_byte i c s)
unfolding scan_byte
scan_byte-Astray e i c s lt n₄ h = elim (Bool-cases (c == b':')) [
  | inl colon ↦ rw colon (record { result = h.result; b64 = lt; bin = h.bin })
  | inr n₁ ↦ elim (Bool-cases (c == b'@')) [
    | inl binary ↦ rw (n₁, binary) (record { result = h.result; b64 = h.b64; bin = lt })
    | inr n₂ ↦ elim (Bool-cases (c == b'!')) [
      | inl exclam ↦
          rw (n₁, n₂, exclam)
            (record {
              result = record {
                exclam = ap (λ o. settle o (some i)) h.result.exclam;
                colon = settle-Beyond e s.result.colon_index s.b64_candidate h.result.colon h.b64;
                binary =
                    settle-Beyond e s.result.binary_index s.bin_candidate h.result.binary h.bin;
                semicolon = h.result.semicolon;
              };
              b64 = h.b64;
              bin = h.bin;
            })
      | inr n₃ ↦ rw (n₁, n₂, n₃, n₄) h
    ]
  ]
]

-- The loop does not break off where no command's end is found.
goes_on : (r : Indices) → r.semicolon_index ≡ none → all_found r ≡ false
goes_on r e =
    ap (λ o. found r.colon_index && (found r.binary_index && (found r.exclam_index && found o))) e
    ∙ no_last (found r.colon_index) (found r.binary_index) (found r.exclam_index)
  where
    no_last : (a b c : Bool) → (a && (b && (c && false))) ≡ false
    no_last true true true = refl
    no_last true true false = refl
    no_last true false c = refl
    no_last false b c = refl

scan_from-IsStray :
    (rest : List ℕ) (e i : ℕ) (s : Scanner)
    → e < i
    → NoTerminator rest
    → Astray e s
    → IsStray e (scan_from rest i s)
unfolding scan_from
scan_from-IsStray [] e i s lt no_end h = h.result
scan_from-IsStray (c ∷ rest) e i s lt (n, no_end) h =
    let h' = scan_byte-Astray e i c s lt n h in
    subst (IsStray e)
      (sym (
        scan_from-next c rest i s (scan_byte i c s) refl
          (goes_on (scan_byte i c s).result h'.result.semicolon)))
      (scan_from-IsStray rest e (i + 1) (scan_byte i c s) (omega arith) no_end h')

-- fs_scan_delimiters keeps the first '!' of the buffer, also where no header stands before it: the
-- headers it finds then stand behind it.
pub scan_delimiters-IsStray :
    (body rest : List ℕ)
    → IsBody body
    → NoTerminator rest
    → IsStray (length body) (scan_delimiters (body ++ b'!' ∷ rest))
unfolding scan_delimiters scan_byte
scan_delimiters-IsStray body rest h no_end =
    subst (IsStray (length body))
      (sym (
        scan_from-plain body (b'!' ∷ rest) 0 (header_read none none) h refl
        ∙ ap (λ n. scan_from (b'!' ∷ rest) n (header_read none none)) zero_first
        ∙ scan_from-next b'!' rest (length body) (header_read none none) after refl refl))
      (scan_from-IsStray rest (length body) (length body + 1) after (omega arith) no_end (record {
        result = record { exclam = refl; colon = tt; binary = tt; semicolon = refl };
        b64 = tt;
        bin = tt;
      }))
  where
    after : Scanner
    after = scan_byte (length body) b'!' (header_read none none)

    zero_first : 0 + length body ≡ length body
    zero_first = omega arith
