-- ===== src/Delimiters/Soundness.antt =====
-- What stands at the indices that fs_scan_delimiters finds.
use trifecta_sdk.Common.{
  ℕ, ◌≡◌, sym, ap, ◌∙◌, inl, inr, Bool, true, false, Option, none, some, List, [], ◌∷◌, ◌++◌, arith,
  ◌==◌, ==_iff, get_elem?, length, Bool-cases, append-snoc, length-snoc, get_elem?-append_left,
  get_elem?-append_length,
}
use mathlib.Core.Path.{subst}
use trifecta_sdk.Delimiters.{
  Indices, Scanner, settle, scan_byte, all_found, scan_from, scan_delimiters,
}

-- An index that is found is one of the given byte.
abbrev pub PointsTo : List ℕ → ℕ → Option ℕ → Type 0
PointsTo buffer byte none = Unit
PointsTo buffer byte (some i) = get_elem? buffer i ≡ some byte

-- Every index points to its delimiter.
pub record IsSound (buffer : List ℕ) (r : Indices) : Type 0 where
  pub colon : PointsTo buffer b':' r.colon_index
  pub binary : PointsTo buffer b'@' r.binary_index
  pub exclam : PointsTo buffer b'!' r.exclam_index
  pub semicolon : PointsTo buffer b';' r.semicolon_index

record Scanned (buffer : List ℕ) (s : Scanner) : Type 0 where
  result : IsSound buffer s.result
  b64 : PointsTo buffer b':' s.b64_candidate
  bin : PointsTo buffer b'@' s.bin_candidate

settle-PointsTo :
    (buffer : List ℕ) (byte : ℕ) (o candidate : Option ℕ)
    → PointsTo buffer byte o
    → PointsTo buffer byte candidate
    → PointsTo buffer byte (settle o candidate)
settle-PointsTo buffer byte none candidate h hc = hc
settle-PointsTo buffer byte (some i) candidate h hc = h

scan_byte-Scanned :
    (buffer : List ℕ) (i byte : ℕ) (s : Scanner)
    → get_elem? buffer i ≡ some byte
    → Scanned buffer s
    → Scanned buffer (scan_byte i byte s)
unfolding scan_byte
scan_byte-Scanned buffer i byte s here h = elim (Bool-cases (byte == b':')) [
  | inl colon ↦ rw colon (record { result = h.result; b64 = at b':' colon; bin = h.bin })
  | inr n₁ ↦ elim (Bool-cases (byte == b'@')) [
    | inl binary ↦ rw (n₁, binary) (record { result = h.result; b64 = h.b64; bin = at b'@' binary })
    | inr n₂ ↦ elim (Bool-cases (byte == b'!')) [
      | inl exclam ↦
          rw (n₁, n₂, exclam)
            (record {
              result = record {
                exclam =
                    settle-PointsTo buffer b'!' s.result.exclam_index (some i) h.result.exclam
                      (at b'!' exclam);
                colon =
                    settle-PointsTo buffer b':' s.result.colon_index s.b64_candidate h.result.colon
                      h.b64;
                binary =
                    settle-PointsTo buffer b'@' s.result.binary_index s.bin_candidate
                      h.result.binary h.bin;
                semicolon = h.result.semicolon;
              };
              b64 = h.b64;
              bin = h.bin;
            })
      | inr n₃ ↦ elim (Bool-cases (byte == b';')) [
        | inl semi ↦
            rw (n₁, n₂, n₃, semi)
              (record {
                result = record {
                  colon = h.result.colon;
                  binary = h.result.binary;
                  exclam = h.result.exclam;
                  semicolon =
                      settle-PointsTo buffer b';' s.result.semicolon_index (some i)
                        h.result.semicolon (at b';' semi);
                };
                b64 = h.b64;
                bin = h.bin;
              })
        | inr n₄ ↦ rw (n₁, n₂, n₃, n₄) h
      ]
    ]
  ]
]
  where
    at : (d : ℕ) → (byte == d) ≡ true → get_elem? buffer i ≡ some d
    at d e = here ∙ ap some ((==_iff byte d).0 e)

either :
    {buffer : List ℕ} {r r' : Indices} (b : Bool)
    → IsSound buffer r
    → IsSound buffer r'
    → IsSound buffer (elim b [ true ↦ r | false ↦ r' ])
either true h h' = h
either false h h' = h'

scan_from-IsSound :
    (rest pre : List ℕ) (s : Scanner)
    → Scanned (pre ++ rest) s
    → IsSound (pre ++ rest) (scan_from rest (length pre) s)
unfolding scan_from
scan_from-IsSound [] pre s h = h.result
scan_from-IsSound (byte ∷ rest) pre s h =
    either (all_found (scan_byte (length pre) byte s).result) next.result (
      subst (λ n. IsSound (pre ++ byte ∷ rest) (scan_from rest n (scan_byte (length pre) byte s)))
        (sym (length-snoc pre byte))
        (subst
          (λ b.
            IsSound b (scan_from rest (length (pre ++ byte ∷ [])) (scan_byte (length pre) byte s)))
          (sym (append-snoc pre rest byte))
          (scan_from-IsSound rest (pre ++ byte ∷ []) (scan_byte (length pre) byte s) (
            subst (λ b. Scanned b (scan_byte (length pre) byte s)) (append-snoc pre rest byte)
              next))))
  where
    here : get_elem? (pre ++ byte ∷ rest) (length pre) ≡ some byte
    here =
        ap (λ b. get_elem? b (length pre)) (append-snoc pre rest byte)
        ∙ get_elem?-append_left (pre ++ byte ∷ []) rest (length pre)
            (omega (arith, length-snoc pre byte))
        ∙ get_elem?-append_length pre byte

    next : Scanned (pre ++ byte ∷ rest) (scan_byte (length pre) byte s)
    next = scan_byte-Scanned (pre ++ byte ∷ rest) (length pre) byte s here h

-- Each index that fs_scan_delimiters finds is the position in the buffer of the delimiter that it
-- stands for.
pub scan_delimiters-IsSound : (buffer : List ℕ) → IsSound buffer (scan_delimiters buffer)
unfolding scan_delimiters
scan_delimiters-IsSound buffer = scan_from-IsSound buffer [] _ (record {
  result = record { colon = tt; binary = tt; exclam = tt; semicolon = tt };
  b64 = tt;
  bin = tt;
})
