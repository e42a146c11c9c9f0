-- ===== src/Replay/Row.antt =====
-- common/FS_Trifecta_Replay.c: fs_replay_parse_packet, which reads a line of a table into a packet.
use trifecta_sdk.Common.{
  ℕ, zero, suc, ◌+◌, ◌-◌, ◌*◌, ◌/◌, ◌%◌, ◌^◌, ◌||◌, Option, none, some, List, [], ◌∷◌, ◌++◌, ltb,
  ◌==◌, take, drop, set, replicate, if◌then◌else◌,
}
use trifecta_sdk.Common.Int.{ℤ, pos, negsuc}
use trifecta_sdk.Commands.Atoi.{atoi, digits, skip_space}
use trifecta_sdk.Packet.{Packet}
use trifecta_sdk.Packet.Member.{Layout, Field, size_of, offset_of, width_of}
use trifecta_sdk.Packet.Structs.{composite_packet, composite_packet_2}
use trifecta_sdk.Packet.Structs64.{composite_packet_64, composite_packet_64_2}
use trifecta_sdk.Replay.Header.{FieldId, max_columns, c_string, split_comma}

-- `strtof` and `strtod` of the C library: the bits of the number that a text starts with.
pub record Numbers : Type 0 where
  pub strtof : List ℕ → ℕ
  pub strtod : List ℕ → ℕ

-- The two's complement of a value at a width in bits.
unfoldable pub bits_of : ℕ → ℤ → ℕ
bits_of w (pos n) = n % 2 ^ w
bits_of w (negsuc n) = 2 ^ w - 1 - n % 2 ^ w

-- `strtoul` and `strtoull` in base 10, with 64-bit results: a value out of range gives the largest.
unfoldable pub strtoull : List ℕ → ℕ
unfolding digits skip_space
strtoull s =
    let clip = λ (n : ℕ). if ltb n (2 ^ 64) then n else 2 ^ 64 - 1 in
    elim (skip_space s) [
      | [] ↦ 0
      | c ∷ cs ↦
          if c == b'-'
          then (if ltb (digits cs 0) (2 ^ 64) then (2 ^ 64 - digits cs 0) % 2 ^ 64 else 2 ^ 64 - 1)
          else if c == b'+'
          then clip (digits cs 0)
          else clip (digits (c ∷ cs) 0)
    ]

-- A write of `n` bytes at `i`, little-endian.
unfoldable pub write_bytes : Packet → ℕ → ℕ → ℕ → Packet
write_bytes p i zero v = p
write_bytes p i (suc n) v = write_bytes (set p i (v % 256)) (i + 1) n (v / 256)

-- `p->x = v`, through the structure of the given layout.
unfoldable pub set_member : Layout → Field → ℕ → Packet → Packet
unfolding write_bytes
set_member layout m v p = write_bytes p (offset_of layout m) (width_of layout m) v

-- `p->temperature[k] = v`.
unfoldable pub set_temperature : Layout → ℕ → ℕ → Packet → Packet
unfolding write_bytes
set_temperature layout k v p = write_bytes p (offset_of layout Field.temperature + 2 * k) 2 v

-- `memset(p, 0, sizeof(*p))` and `p->type = (uint8_t)type_i`.
unfoldable pub clear : Layout → ℕ → Packet → Packet
unfolding set_member
clear layout t p =
    set_member layout Field.type t (replicate (size_of layout) 0 ++ drop (size_of layout) p)

-- The cases of the switches over `fs_field_id_t` that store a float: the member.
unfoldable pub float_member : FieldId → Option Field
float_member FieldId.ax0 = some Field.ax0
float_member FieldId.ay0 = some Field.ay0
float_member FieldId.az0 = some Field.az0
float_member FieldId.gx0 = some Field.gx0
float_member FieldId.gy0 = some Field.gy0
float_member FieldId.gz0 = some Field.gz0
float_member FieldId.ax1 = some Field.ax1
float_member FieldId.ay1 = some Field.ay1
float_member FieldId.az1 = some Field.az1
float_member FieldId.gx1 = some Field.gx1
float_member FieldId.gy1 = some Field.gy1
float_member FieldId.gz1 = some Field.gz1
float_member FieldId.ax2 = some Field.ax2
float_member FieldId.ay2 = some Field.ay2
float_member FieldId.az2 = some Field.az2
float_member FieldId.gx2 = some Field.gx2
float_member FieldId.gy2 = some Field.gy2
float_member FieldId.gz2 = some Field.gz2
float_member FieldId.q0 = some Field.q0
float_member FieldId.q1 = some Field.q1
float_member FieldId.q2 = some Field.q2
float_member FieldId.q3 = some Field.q3
float_member FieldId.omegax0 = some Field.omega_x0
float_member FieldId.omegy0 = some Field.omega_y0
float_member FieldId.omegaz0 = some Field.omega_z0
float_member FieldId.accx = some Field.acc_x
float_member FieldId.accy = some Field.acc_y
float_member FieldId.accz = some Field.acc_z
float_member FieldId.magx = some Field.mag_x
float_member FieldId.magy = some Field.mag_y
float_member FieldId.magz = some Field.mag_z
float_member FieldId.baro = some Field.barometric_pressure
float_member _ = none

-- The cases that store an integer, but for that of the time.
unfoldable pub assign_integer : Layout → FieldId → List ℕ → Packet → Packet
unfolding set_member set_temperature
assign_integer layout FieldId.temp0 s p = set_temperature layout 0 (bits_of 16 (atoi s)) p
assign_integer layout FieldId.temp1 s p = set_temperature layout 1 (bits_of 16 (atoi s)) p
assign_integer layout FieldId.temp2 s p = set_temperature layout 2 (bits_of 16 (atoi s)) p
assign_integer layout FieldId.diag s p =
    set_member layout Field.diagnostic_flag (bits_of 8 (atoi s)) p
assign_integer layout FieldId.devicemotion s p =
    set_member layout Field.device_motion_status (bits_of 8 (atoi s)) p
assign_integer layout _ s p = p

-- The cases that the four switches share, for a cell `s`.
unfoldable pub assign_shared : Numbers → Layout → FieldId → List ℕ → Packet → Packet
unfolding assign_integer
assign_shared numbers layout field s p = elim (float_member field) [
  | some m ↦ set_member layout m (numbers.strtof s) p
  | none ↦ assign_integer layout field s p
]

-- The cases of velocity and position, which the structures with those members have as well.
unfoldable pub assign_moving : Numbers → Layout → FieldId → List ℕ → Packet → Packet
unfolding assign_shared
assign_moving numbers layout FieldId.vx s p = set_member layout Field.vx (numbers.strtof s) p
assign_moving numbers layout FieldId.vy s p = set_member layout Field.vy (numbers.strtof s) p
assign_moving numbers layout FieldId.vz s p = set_member layout Field.vz (numbers.strtof s) p
assign_moving numbers layout FieldId.rx s p = set_member layout Field.rx (numbers.strtod s) p
assign_moving numbers layout FieldId.ry s p = set_member layout Field.ry (numbers.strtod s) p
assign_moving numbers layout FieldId.rz s p = set_member layout Field.rz (numbers.strtod s) p
assign_moving numbers layout field s p = assign_shared numbers layout field s p

-- The switch for `composite`.
unfoldable pub assign_composite : Numbers → FieldId → List ℕ → Packet → Packet
unfolding assign_shared
assign_composite numbers FieldId.time s p =
    set_member composite_packet Field.time (strtoull s % 2 ^ 32) p
assign_composite numbers field s p = assign_shared numbers composite_packet field s p

-- The switch for `composite2`.
unfoldable pub assign_composite2 : Numbers → FieldId → List ℕ → Packet → Packet
unfolding assign_moving
assign_composite2 numbers FieldId.time s p =
    set_member composite_packet_2 Field.time (strtoull s % 2 ^ 32) p
assign_composite2 numbers field s p = assign_moving numbers composite_packet_2 field s p

-- The switch for `composite64`.
unfoldable pub assign_composite64 : Numbers → FieldId → List ℕ → Packet → Packet
unfolding assign_shared
assign_composite64 numbers FieldId.time s p =
    set_member composite_packet_64 Field.time (strtoull s) p
assign_composite64 numbers field s p = assign_shared numbers composite_packet_64 field s p

-- The switch for `composite64_2`.
unfoldable pub assign_composite64_2 : Numbers → FieldId → List ℕ → Packet → Packet
unfolding assign_moving
assign_composite64_2 numbers FieldId.time s p =
    set_member composite_packet_64_2 Field.time (strtoull s) p
assign_composite64_2 numbers field s p = assign_moving numbers composite_packet_64_2 field s p

-- The loop over the columns of one switch.
unfoldable pub assign_columns :
    (FieldId → List ℕ → Packet → Packet) → List FieldId → List (List ℕ) → Packet → Packet
assign_columns assign (field ∷ fields) (s ∷ cells) p =
    assign_columns assign fields cells (assign field s p)
assign_columns assign _ _ p = p

-- The loop that cuts a line at its commas into `n` cells at most.
unfoldable pub tokens : ℕ → List ℕ → List (List ℕ)
tokens zero line = []
tokens (suc n) line = elim (split_comma line) [
  | none ↦ line ∷ []
  | some (token, rest) ↦ token ∷ tokens n rest
]

-- `type_i`: the cell of the first column that is mapped to FIELD_TYPE.
unfoldable pub type_of_row : List FieldId → List (List ℕ) → ℤ
type_of_row (FieldId.type ∷ fields) (s ∷ cells) = atoi s
type_of_row (_ ∷ fields) (s ∷ cells) = type_of_row fields cells
type_of_row _ _ = pos 0

-- The structures that the switch over the packet type tells apart.
pub data Shape : Type 0 where
  composite composite2 composite64 composite64_2 unsupported : Shape

unfoldable pub shape_of : ℤ → Shape
shape_of (negsuc n) = unsupported
shape_of (pos t) =
    if ltb t 3
    then composite
    else if t == 8 || t == 9 || t == 10
    then composite2
    else if t == 100 || t == 101 || t == 102
    then composite64
    else if t == 108 || t == 109 || t == 110
    then composite64_2
    else unsupported

-- The switch over the packet type: the value returned and `*out`.
unfoldable pub parse_shape :
    Numbers → List FieldId → List (List ℕ) → ℕ → Packet → Shape → ℤ × Packet
unfolding clear assign_columns
parse_shape numbers fields cells t out composite =
    (pos 0, assign_columns (assign_composite numbers) fields cells (clear composite_packet t out))
parse_shape numbers fields cells t out composite2 = (
  pos 0,
  assign_columns (assign_composite2 numbers) fields cells (clear composite_packet_2 t out),
)
parse_shape numbers fields cells t out composite64 = (
  pos 0,
  assign_columns (assign_composite64 numbers) fields cells (clear composite_packet_64 t out),
)
parse_shape numbers fields cells t out composite64_2 = (
  pos 0,
  assign_columns (assign_composite64_2 numbers) fields cells (clear composite_packet_64_2 t out),
)
parse_shape numbers fields cells t out unsupported = (negsuc 1, out)

-- What `fs_replay_parse_packet` does with the cells of a line.
unfoldable pub parse_cells : Numbers → List FieldId → List (List ℕ) → Packet → ℤ × Packet
unfolding type_of_row shape_of parse_shape
parse_cells numbers fields cells out =
    let type_i = type_of_row fields cells in
    parse_shape numbers fields cells (bits_of 8 type_i) out (shape_of type_i)

-- `fs_replay_parse_packet`.
unfoldable pub replay_parse_packet : Numbers → List FieldId → List ℕ → Packet → ℤ × Packet
unfolding tokens parse_cells
replay_parse_packet numbers fields line out =
    parse_cells numbers fields (tokens max_columns (take 511 (c_string line))) out
