-- ===== src/Replay/Access.antt =====
-- fs_replay_read_line and fs_replay_read_next on an open table.
use mathlib.Core.Path.{subst}
use trifecta_sdk.Common.{
  ℕ, zero, suc, ◌+◌, ◌-◌, ◌*◌, ◌/◌, ◌≤◌, ◌<◌, ◌≡◌, refl, sym, ap, ◌∙◌, ◌⊎◌, Bool, true, false,
  Option, none, some, List, [], ◌∷◌, ◌++◌, arith, length, drop, get_or, drop-add, leb, ◌==◌,
}
use trifecta_sdk.Common.Int.{ℤ, negsuc, is_pos}
use trifecta_sdk.Packet.{Packet}
use trifecta_sdk.Replay.Stream.{File, Line, fseek}
use trifecta_sdk.Replay.Row.{Numbers, replay_parse_packet}
use trifecta_sdk.Replay.Rows.{Ahead, AllRows, IsRow, written, behind, safe_fgets-row, behind-Ahead}
use trifecta_sdk.Replay.Nearest.{
  IsBlocked, block_le, below_next, block_start, next_start, nearest_start-here, nearest_start-next,
}
use trifecta_sdk.Replay.{Replay, read_line, read_indexed, read_after, skip_lines, nearest_start}

-- A handle that is open on a file of these bytes with a header and these lines, and has its index.
pub record IsOpen (r : Replay) (bytes : List ℕ) (rows : List (List ℕ)) : Type 0 where
  pub file : File
  pub offsets : List ℕ
  pub opened : r.fp ≡ some file
  pub contents : file.bytes ≡ bytes
  pub indexed : r.offsets ≡ some offsets
  pub has_index : r.has_index ≡ 1
  pub counted : r.num_lines ≡ length rows
  pub blocked : IsBlocked r.sparse_step r.num_lines r.num_blocks
  pub marks :
      (b : ℕ)
      → b * r.sparse_step < length rows
      → drop (get_or offsets b 0) bytes ≡ written (drop (b * r.sparse_step) rows)

-- The call parsed this line, and left the file at these.
pub record HasRead (numbers : Numbers) (r : Replay) (out : Packet) (bytes row : List ℕ)
    (rows : List (List ℕ)) (res : ℤ × Replay × Packet) : Type 0 where
  pub file : File
  pub contents : file.bytes ≡ bytes
  pub ahead : Ahead file rows
  pub result : res ≡ (
      let (code, packet) = replay_parse_packet numbers r.field_for_column (row ++ 10 ∷ []) out in
      (code, record r { fp = some file }, packet))

AllRows-drop : (n : ℕ) (rows : List (List ℕ)) → AllRows rows → AllRows (drop n rows)
AllRows-drop zero rows h = h
AllRows-drop (suc n) [] h = tt
AllRows-drop (suc n) (row ∷ rows) h = AllRows-drop n rows h.1

skip_lines-row :
    (n : ℕ) (file : File) (row : List ℕ) (rows : List (List ℕ))
    → Ahead file (row ∷ rows)
    → IsRow row
    → skip_lines (suc n) file ≡ skip_lines n (behind row file)
unfolding skip_lines
skip_lines-row n file row rows h ok =
    ap
      (λ (read : Line × File).
        let skipped : Bool × File = elim (is_pos read.0.code) [
          | true ↦ skip_lines n read.1
          | false ↦ (false, read.1)
        ] in
        skipped)
      (safe_fgets-row file row rows h ok)

length-drop_cons :
    (n : ℕ) (rows : List (List ℕ)) (row : List ℕ) (rest : List (List ℕ))
    → drop n rows ≡ row ∷ rest
    → n < length rows
length-drop_cons zero [] row rest e = absurd (cc)
length-drop_cons zero (first ∷ rows) row rest e = omega arith
length-drop_cons (suc n) [] row rest e = absurd (cc)
length-drop_cons (suc n) (first ∷ rows) row rest e =
    omega (arith, length-drop_cons n rows row rest e)

module _ (numbers : Numbers) (r : Replay) (out : Packet) where
  skip-row :
      (n : ℕ) (file : File) (row : List ℕ) (rows : List (List ℕ))
      → Ahead file (row ∷ rows)
      → IsRow row
      → read_after numbers r (suc n) file out ≡ read_after numbers r n (behind row file) out
  unfolding read_after
  skip-row n file row rows h ok = rw (skip_lines-row n file row rows h ok, read_after) refl

  read_here :
      (file : File) (row : List ℕ) (rows : List (List ℕ))
      → Ahead file (row ∷ rows)
      → IsRow row
      → HasRead numbers r out file.bytes row rows (read_after numbers r 0 file out)
  unfolding read_after
  read_here file row rows h ok = record {
    file = behind row file;
    contents = refl;
    ahead = behind-Ahead file row rows h;
    result = rw (safe_fgets-row file row rows h ok, read_after) refl;
  }

  read_after-row :
      (n : ℕ) (file : File) (row : List ℕ) (ahead rows : List (List ℕ))
      → Ahead file ahead
      → AllRows ahead
      → drop n ahead ≡ row ∷ rows
      → HasRead numbers r out file.bytes row rows (read_after numbers r n file out)
  read_after-row zero file row ahead rows h ok e =
      read_here file row rows (h ∙ ap written e) (subst AllRows e ok).0
  read_after-row (suc n) file row [] rows h ok e = absurd (cc)
  read_after-row (suc n) file row (first ∷ ahead) rows h ok e =
      subst (HasRead numbers r out file.bytes row rows) (sym (skip-row n file first ahead h ok.0)) (
        read_after-row n (behind first file) row ahead rows (behind-Ahead file first ahead h) ok.1
          e)

-- Reading does not close the table.
kept :
    {r : Replay} {bytes : List ℕ} {rows : List (List ℕ)} (fp : File)
    → IsOpen r bytes rows
    → fp.bytes ≡ bytes
    → IsOpen (record r { fp = some fp }) bytes rows
kept fp v same = record {
  file = fp;
  offsets = v.offsets;
  opened = refl;
  contents = same;
  indexed = v.indexed;
  has_index = v.has_index;
  counted = v.counted;
  blocked = v.blocked;
  marks = v.marks;
}

module _ (numbers : Numbers) (r : Replay) (out : Packet) (bytes : List ℕ) (rows : List (List ℕ))
    (v : IsOpen r bytes rows) (good : AllRows rows) where
  read_line-indexed :
      (i : ℕ) → read_line numbers r i out ≡ read_indexed numbers r v.file v.offsets i out
  unfolding read_line
  read_line-indexed i =
      ap
        (λ (fp : Option File).
          let res : ℤ × Replay × Packet = elim fp [
            | none ↦ (negsuc 0, r, out)
            | some file ↦ elim r.offsets [
              | none ↦ (negsuc 1, r, out)
              | some offsets ↦ read_indexed numbers r file offsets i out
            ]
          ] in
          res)
        v.opened
      ∙ ap
          (λ (offsets : Option (List ℕ)).
            let res : ℤ × Replay × Packet = elim offsets [
              | none ↦ (negsuc 1, r, out)
              | some offsets ↦ read_indexed numbers r v.file offsets i out
            ] in
            res)
          v.indexed

  read_indexed-start :
      (i start block : ℕ)
      → i < length rows
      → nearest_start r i ≡ (start, block)
      → read_indexed numbers r v.file v.offsets i out
        ≡ read_after numbers r (i - start) (fseek v.file (get_or v.offsets block 0)) out
  unfolding read_indexed
  read_indexed-start i start block inside e =
      let has : (r.has_index == 0) ≡ false = ground (arith, v.has_index) in
      let more : leb r.num_lines i ≡ false = ground (arith, v.counted) in
      rw (has, more, e, read_indexed) refl

  read_line-block :
      (i block : ℕ) (row : List ℕ) (rest : List (List ℕ))
      → i < length rows
      → nearest_start r i ≡ (block * r.sparse_step, block)
      → block * r.sparse_step < length rows
      → drop (block * r.sparse_step + (i - block * r.sparse_step)) rows ≡ row ∷ rest
      → HasRead numbers r out bytes row rest (read_line numbers r i out)
  read_line-block i block row rest inside e marked here =
      let start = block * r.sparse_step in
      let file = fseek v.file (get_or v.offsets block 0) in
      let ahead : Ahead file (drop start rows) =
        ap (drop (get_or v.offsets block 0)) v.contents ∙ v.marks block marked in
      let read =
        read_after-row numbers r out (i - start) file row (drop start rows) rest ahead
          (AllRows-drop start rows good) (sym (drop-add start (i - start) rows) ∙ here) in
      subst (λ bytes. HasRead numbers r out bytes row rest (read_line numbers r i out)) v.contents
        (subst (HasRead numbers r out v.file.bytes row rest)
          (sym (read_line-indexed i ∙ read_indexed-start i start block inside e)) read)

  -- fs_replay_read_line parses the line that was asked for, where the start of its block is no further
  -- from it than the start of the next block, or where its block is the last; the file is left at the
  -- line behind it. The handle is open on a table whose lines fit the line buffer.
  pub read_line-row :
      (i : ℕ) (row : List ℕ) (rest : List (List ℕ))
      → drop i rows ≡ row ∷ rest
      → (i - block_start r i ≤ next_start r i - i) ⊎ (length rows ≤ next_start r i)
      → HasRead numbers r out bytes row rest (read_line numbers r i out)
  read_line-row i row rest here near =
      let inside = length-drop_cons i rows row rest here in
      let le = block_le i r.sparse_step in
      let total : block_start r i + (i - block_start r i) ≡ i = omega (arith, le) in
      read_line-block i (i / r.sparse_step) row rest inside
        (nearest_start-here r i v.blocked (omega (arith, v.counted)) (rw v.counted near))
        (omega (arith, le, inside)) (ap (λ n. drop n rows) total ∙ here)

  -- Where the next block's start is nearer, fs_replay_read_line does not go back to the line that was
  -- asked for: it parses the first line of the next block, whatever line of that half was asked for.
  pub read_line-skips :
      (i : ℕ) (row : List ℕ) (rest : List (List ℕ))
      → next_start r i - i < i - block_start r i
      → drop (next_start r i) rows ≡ row ∷ rest
      → HasRead numbers r out bytes row rest (read_line numbers r i out)
  read_line-skips i row rest nearer there =
      let inside = length-drop_cons (next_start r i) rows row rest there in
      let below : i < next_start r i = below_next i r.sparse_step v.blocked.step_pos in
      let none_left : next_start r i + (i - next_start r i) ≡ next_start r i =
        omega (arith, below) in
      read_line-block i (i / r.sparse_step + 1) row rest (omega (arith, below, inside))
        (nearest_start-next r i v.blocked (omega (arith, v.counted, below, inside)) nearer
          (omega (arith, v.counted, inside)))
        inside (ap (λ n. drop n rows) none_left ∙ there)
