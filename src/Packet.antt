-- ===== src/Packet.antt =====
-- include/FS_Trifecta_Defs_Packets.h: the packed packet structures, as lists of their members with
-- their sizes, and the union of them, as its bytes; common/FS_Trifecta_Device_Utils.c:
-- obtain_packet_length.
pub mod Member
pub mod Structs
pub mod Structs64
pub mod Accessors
pub mod Laws
mod Tests
use trifecta_sdk.Common.{
  ℕ, zero, suc, ◌+◌, ◌-◌, ◌*◌, List, [], ◌∷◌, ◌++◌, leb, ◌==◌, ◌&&◌, get_or, if◌then◌else◌, Bool,
}
use trifecta_sdk.Packet.Member.{Field, Layout, size_of, offset_of, width_of}
use trifecta_sdk.Packet.Structs.{composite_packet, regular_packet, composite_packet_2}
use trifecta_sdk.Packet.Structs64.{composite_packet_64, regular_packet_64, composite_packet_64_2}

-- The switch cases of `fs_packet_type_t` that the driver treats alike.
pub data Family : Type 0 where
  composite regular composite2 composite64 regular64 composite64_2 other : Family

-- C_PACKET_TYPE_*, S_PACKET_TYPE_*, C2_PACKET_TYPE_*, C64_…, S64_… and C642_….
unfoldable pub family_of : ℕ → Family
family_of t =
    if leb t 3
    then composite
    else if leb t 7
    then regular
    else if leb t 11
    then composite2
    else if leb 100 t && leb t 103
    then composite64
    else if leb 104 t && leb t 107
    then regular64
    else if leb 108 t && leb t 111
    then composite64_2
    else other

unfoldable pub obtain_packet_length : ℕ → ℕ
obtain_packet_length packet_type = elim (family_of packet_type) [
  | composite ↦ size_of composite_packet
  | regular ↦ size_of regular_packet
  | composite2 ↦ size_of composite_packet_2
  | composite64 ↦ size_of composite_packet_64
  | regular64 ↦ size_of regular_packet_64
  | composite64_2 ↦ size_of composite_packet_64_2
  | other ↦ 0
]

-- `fs_packet_union_t`: its bytes.
abbrev pub Packet : Type 0
Packet = List ℕ

-- `sizeof(fs_packet_union_t)`.
abbrev pub packet_size : ℕ
packet_size = 185

-- A little-endian number of `n` bytes at `i`: the bits of a member.
unfoldable pub load : Packet → ℕ → ℕ → ℕ
load p i zero = 0
load p i (suc n) = get_or p i 0 + 256 * load p (i + 1) n

-- `packet->composite.x`, read through the structure of the given layout.
unfoldable pub member : Layout → Packet → Field → ℕ
member layout p m = load p (offset_of layout m) (width_of layout m)

-- `packet->composite.type`, the first byte of every structure.
abbrev pub packet_type : Packet → ℕ
packet_type p = get_or p 0 0
