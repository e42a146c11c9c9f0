-- ===== src/Replay/Header.antt =====
-- common/FS_Trifecta_Replay.c: fs_normalize_token and fs_replay_parse_header, which map the columns of
-- a table to the members of a packet by the names in its first line. A C string is the list of its
-- characters, without the NUL.
use Prim.Native.Char.{code}
use Prim.Native.String.{String}
use trifecta_sdk.Common.{
  ℕ, zero, suc, ◌+◌, ◌&&◌, not, Option, none, some, List, [], ◌∷◌, ◌++◌, ltb, ◌==◌, take, set,
  replicate, if◌then◌else◌, Bool, true, false,
}
use trifecta_sdk.Commands.Atoi.{is_space, skip_space}

-- `fs_field_id_t`.
pub data FieldId : Type 0 where
  no_field type time ax0 ay0 az0 gx0 gy0 : FieldId
  gz0 ax1 ay1 az1 gx1 gy1 gz1 ax2 : FieldId
  ay2 az2 gx2 gy2 gz2 q0 q1 q2 : FieldId
  q3 omegax0 omegy0 omegaz0 omegax1 omegy1 omegaz1 accx : FieldId
  accy accz vx vy vz rx ry rz : FieldId
  reserved0_1 reserved0_2 reserved0_3 magx magy magz temp0 temp1 : FieldId
  temp2 diag baro devicemotion : FieldId

-- FS_REPLAY_MAX_COLUMNS.
abbrev pub max_columns : ℕ
max_columns = 64

-- The C string that a character array holds.
unfoldable pub c_string : List ℕ → List ℕ
c_string [] = []
c_string (c ∷ cs) = if c == 0 then [] else c ∷ c_string cs

-- `tolower` of the C locale.
unfoldable pub tolower : ℕ → ℕ
tolower c = if ltb 64 c && ltb c 91 then c + 32 else c

-- The loop of `fs_normalize_token`, and the NUL that cuts its trailing space.
unfoldable pub normalize_from : ℕ → List ℕ → ℕ → ℕ → List ℕ → List ℕ
normalize_from out_sz [] len last_non_space out = take last_non_space out
normalize_from out_sz (c ∷ cs) len last_non_space out =
    let rest =
      normalize_from out_sz cs (len + 1) (if is_space c then last_non_space else len + 1)
        (out ++ tolower c ∷ []) in
    if not (c == b',') && ltb (len + 1) out_sz then rest else take last_non_space out

unfoldable pub normalize_token : List ℕ → ℕ → List ℕ
unfolding normalize_from
normalize_token input out_sz = normalize_from out_sz (skip_space input) 0 0 []

abbrev pub codes : String → List ℕ
codes String.[] = []
codes (String.◌∷◌ c s) = code c ∷ codes s

-- `header_map`.
abbrev pub header_map : List (String × FieldId)
header_map =
    ("type", type)
    ∷ ("packettype", type)
    ∷ ("time", time)
    ∷ ("ax0", ax0)
    ∷ ("ay0", ay0)
    ∷ ("az0", az0)
    ∷ ("gx0", gx0)
    ∷ ("gy0", gy0)
    ∷ ("gz0", gz0)
    ∷ ("ax1", ax1)
    ∷ ("ay1", ay1)
    ∷ ("az1", az1)
    ∷ ("gx1", gx1)
    ∷ ("gy1", gy1)
    ∷ ("gz1", gz1)
    ∷ ("ax2", ax2)
    ∷ ("ay2", ay2)
    ∷ ("az2", az2)
    ∷ ("gx2", gx2)
    ∷ ("gy2", gy2)
    ∷ ("gz2", gz2)
    ∷ ("q0", q0)
    ∷ ("q1", q1)
    ∷ ("q2", q2)
    ∷ ("q3", q3)
    ∷ ("omegax0", omegax0)
    ∷ ("omegay0", omegy0)
    ∷ ("omegaz0", omegaz0)
    ∷ ("omegax1", omegax1)
    ∷ ("omegay1", omegy1)
    ∷ ("omegaz1", omegaz1)
    ∷ ("accx", accx)
    ∷ ("accy", accy)
    ∷ ("accz", accz)
    ∷ ("vx", vx)
    ∷ ("vy", vy)
    ∷ ("vz", vz)
    ∷ ("rx", rx)
    ∷ ("ry", ry)
    ∷ ("rz", rz)
    ∷ ("reserved0_1", reserved0_1)
    ∷ ("reserved0_2", reserved0_2)
    ∷ ("reserved0_3", reserved0_3)
    ∷ ("magx", magx)
    ∷ ("magy", magy)
    ∷ ("magz", magz)
    ∷ ("mag_x", magx)
    ∷ ("mag_y", magy)
    ∷ ("mag_z", magz)
    ∷ ("temp0", temp0)
    ∷ ("temp1", temp1)
    ∷ ("temp2", temp2)
    ∷ ("diagnosticflag", diag)
    ∷ ("barometricpressure", baro)
    ∷ ("baro", baro)
    ∷ ("devicemotionstatus", devicemotion)
    ∷ ("label", devicemotion)
    ∷ []

-- `!strcmp(a, b)`.
unfoldable pub same_text : List ℕ → List ℕ → Bool
same_text [] [] = true
same_text (a ∷ s) (b ∷ t) = a == b && same_text s t
same_text _ _ = false

-- The search of `header_map`, which stops at the first entry of that name.
unfoldable pub find_field : List ℕ → List (String × FieldId) → Option FieldId
find_field norm [] = none
find_field norm ((name, id) ∷ rest) =
    if same_text norm (codes name) then some id else find_field norm rest

-- What stands before the first comma, and what stands behind it; `none` where there is no comma.
unfoldable pub split_comma : List ℕ → Option (List ℕ × List ℕ)
split_comma [] = none
split_comma (c ∷ cs) =
    if c == b','
    then some ([], cs)
    else elim (split_comma cs) [ none ↦ none | some (token, rest) ↦ some (c ∷ token, rest) ]

-- One column of the loop of `fs_replay_parse_header`.
unfoldable pub map_column : ℕ → List ℕ → List FieldId → List FieldId
map_column col field fields = elim (find_field (normalize_token (take 63 field) 64) header_map) [
  | none ↦ fields
  | some id ↦ set fields col id
]

-- The loop of `fs_replay_parse_header`, with `n` columns left.
unfoldable pub map_columns : ℕ → ℕ → List ℕ → List FieldId → List FieldId
map_columns zero col p fields = fields
map_columns (suc n) col p fields = elim (split_comma p) [
  | none ↦ map_column col p fields
  | some (field, rest) ↦ map_columns n (col + 1) rest (map_column col field fields)
]

-- The `field_for_column` that `fs_replay_parse_header` makes of a line. It also sets `num_lines` to 0,
-- and returns 0.
unfoldable pub parse_header : List ℕ → List FieldId
unfolding map_columns map_column
parse_header line =
    map_columns max_columns 0 (take 511 (c_string line)) (replicate max_columns no_field)
