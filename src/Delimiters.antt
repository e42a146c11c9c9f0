-- ===== src/Delimiters.antt =====
-- common/FS_Trifecta_Device_Utils.c: fs_scan_delimiters, which looks for the frames of a serial buffer.
pub mod Soundness
pub mod Frame
pub mod Stray
pub mod Commands
mod Tests
use trifecta_sdk.Common.{
  ℕ, ◌+◌, Bool, true, false, ◌&&◌, not, Option, none, some, List, [], ◌∷◌, ◌==◌, if◌then◌else◌,
}

-- `fs_delimiter_indices_t`: `none` is the index -1.
pub record Indices : Type 0 where
  pub colon_index : Option ℕ
  pub binary_index : Option ℕ
  pub exclam_index : Option ℕ
  pub semicolon_index : Option ℕ

-- The scanner's variables.
pub record Scanner : Type 0 where
  pub result : Indices
  pub b64_candidate : Option ℕ
  pub bin_candidate : Option ℕ

abbrev pub found : Option ℕ → Bool
found none = false
found (some i) = true

-- The assignment of a candidate to an index that is not found yet.
abbrev pub settle : Option ℕ → Option ℕ → Option ℕ
settle none candidate = candidate
settle (some i) candidate = some i

-- One round of the loop, before its `break` is tested.
unfoldable pub scan_byte : ℕ → ℕ → Scanner → Scanner
scan_byte i byte s =
    let r = s.result in
    if byte == b':'
    then record s { b64_candidate = some i }
    else if byte == b'@'
    then record s { bin_candidate = some i }
    else if byte == b'!'
    then record s {
      result = record r {
        exclam_index = settle r.exclam_index (some i);
        colon_index = settle r.colon_index s.b64_candidate;
        binary_index = settle r.binary_index s.bin_candidate;
      };
    }
    else if byte == b';'
    then record s { result = record r { semicolon_index = settle r.semicolon_index (some i) } }
    else s

abbrev pub all_found : Indices → Bool
all_found r =
    found r.colon_index
    && (found r.binary_index && (found r.exclam_index && found r.semicolon_index))

-- The loop, at position `i` of the buffer.
unfoldable pub scan_from : List ℕ → ℕ → Scanner → Indices
scan_from [] i s = s.result
scan_from (byte ∷ rest) i s =
    let s' = scan_byte i byte s in
    elim (all_found s'.result) [ true ↦ s'.result | false ↦ scan_from rest (i + 1) s' ]

-- `fs_scan_delimiters`.
unfoldable pub scan_delimiters : List ℕ → Indices
scan_delimiters buffer = scan_from buffer 0 (record {
  result = record {
    colon_index = none;
    binary_index = none;
    exclam_index = none;
    semicolon_index = none;
  };
  b64_candidate = none;
  bin_candidate = none;
})
