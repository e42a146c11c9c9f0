-- ===== src/Replay/Headings.antt =====
-- fs_replay_parse_header on a line of names.
use trifecta_sdk.Common.{
  ℕ, zero, suc, ◌+◌, ◌-◌, ◌≤◌, ◌<◌, ◌≡◌, refl, sym, ap, ◌∙◌, Option, none, some, List, [], ◌∷◌,
  ◌++◌, arith, length, take, set, replicate, take_all, set-append_here, append-snoc, length-snoc,
}
use mathlib.Core.List.{map}
use trifecta_sdk.Replay.Header.{
  FieldId, no_field, max_columns, map_column, map_columns, parse_header, find_field,
  normalize_token, header_map,
}
use trifecta_sdk.Replay.Table.{
  joined, AllCells, split_comma-cell, split_comma-cells, c_string-joined,
}

-- The field whose name in `header_map` a heading is, without its outer spaces and in small letters.
abbrev pub field_named : List ℕ → FieldId
field_named name = elim (find_field (normalize_token (take 63 name) 64) header_map) [
  | none ↦ no_field
  | some id ↦ id
]

map_column-next :
    (done rest : List FieldId) (name : List ℕ)
    → map_column (length done) name (done ++ no_field ∷ rest) ≡ done ++ field_named name ∷ rest
unfolding map_column
map_column-next done rest name =
    by_field (find_field (normalize_token (take 63 name) 64) header_map)
  where
    by_field :
        (o : Option FieldId)
        → elim o [
          | none ↦ done ++ no_field ∷ rest
          | some id ↦ set (done ++ no_field ∷ rest) (length done) id
        ]
          ≡ done ++ (elim o [ none ↦ no_field | some id ↦ id ]) ∷ rest
    by_field none = refl
    by_field (some id) = set-append_here done rest no_field id

-- The columns behind those that are done, with `n` left.
map_columns-joined :
    (n : ℕ) (done : List FieldId) (names : List (List ℕ))
    → AllCells names
    → 0 < length names
    → length names ≤ n
    → map_columns n (length done) (joined names) (done ++ replicate n no_field)
      ≡ done ++ (map field_named names ++ replicate (n - length names) no_field)
unfolding map_columns
map_columns-joined n done [] h some_names fits = absurd (omega arith)
map_columns-joined zero done (name ∷ names) h some_names fits = absurd (omega arith)
map_columns-joined (suc n) done (name ∷ []) h some_names fits =
    let e : suc n - 1 ≡ n = omega arith in
    rw (split_comma-cell name h.0, map_columns, e)
      (map_column-next done (replicate n no_field) name)
map_columns-joined (suc n) done (name ∷ next ∷ names) h some_names fits =
    let e : suc n - suc (suc (length names)) ≡ n - suc (length names) = omega arith in
    let field = field_named name in
    rw (split_comma-cells name (joined (next ∷ names)) h.0, map_columns, e)
      (ap
          (λ (fields : List FieldId).
            map_columns n (length done + 1) (joined (next ∷ names)) fields)
          (map_column-next done (replicate n no_field) name
            ∙ append-snoc done (replicate n no_field) field)
        ∙ ap
            (λ (col : ℕ).
              map_columns n col (joined (next ∷ names))
                ((done ++ field ∷ []) ++ replicate n no_field))
            (length-snoc done field)
        ∙ map_columns-joined n (done ++ field ∷ []) (next ∷ names) h.1 (omega arith) (omega arith)
        ∙ sym (
            append-snoc done
              (map field_named (next ∷ names) ++ replicate (n - suc (length names)) no_field)
              field))

-- fs_replay_parse_header maps each column to the field that its heading names, and the columns that
-- have no heading to none: for at most 64 headings without commas or NUL, in a line that fits its
-- buffer.
pub parse_header-joined :
    (names : List (List ℕ))
    → AllCells names
    → 0 < length names
    → length names ≤ max_columns
    → length (joined names) ≤ 511
    → parse_header (joined names)
      ≡ map field_named names ++ replicate (max_columns - length names) no_field
unfolding parse_header
parse_header-joined names h some_names fits short =
    ap (λ line. map_columns max_columns 0 (take 511 line) (replicate max_columns no_field))
      (c_string-joined names h)
    ∙ ap (λ line. map_columns max_columns 0 line (replicate max_columns no_field))
        (take_all 511 (joined names) short)
    ∙ map_columns-joined max_columns [] names h some_names fits
