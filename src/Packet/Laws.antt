-- ===== src/Packet/Laws.antt =====
-- The lengths of the packet types.
use trifecta_sdk.Common.{ℕ, ◌≤◌, ◌≡◌, arith, List, [], ◌∷◌, leb, ◌&&◌, ◌⊎◌, if◌then◌else◌}
use trifecta_sdk.Packet.Member.{size_of}
use trifecta_sdk.Packet.{family_of, obtain_packet_length, packet_size}

-- The types of a structure, the first and the last, with the size that the source asserts for it.
abbrev pub asserted : List (ℕ × ℕ × ℕ)
asserted =
    (0, 3, 145)
    ∷ (4, 7, 85)
    ∷ (8, 11, 181)
    ∷ (100, 103, 149)
    ∷ (104, 107, 89)
    ∷ (108, 111, 185)
    ∷ []

-- The size for a type, 0 for one that is in none of the ranges.
abbrev pub asserted_size : ℕ → List (ℕ × ℕ × ℕ) → ℕ
asserted_size t [] = 0
asserted_size t ((first, last, size) ∷ rest) =
    let later = asserted_size t rest in if leb first t && leb t last then size else later

-- obtain_packet_length gives every packet type the size that the source asserts for the structure of its
-- range of types, and 0 to all other types, those of the high rates among them; the packet union can
-- hold it.
pub obtain_packet_length-bounds :
    (packet_type : ℕ)
    → (obtain_packet_length packet_type ≡ asserted_size packet_type asserted)
      × (obtain_packet_length packet_type ≤ packet_size)
unfolding obtain_packet_length family_of size_of
obtain_packet_length-bounds t = (sizes, ground arith)
  where
    sizes : obtain_packet_length t ≡ asserted_size t asserted
    sizes = ground arith

pub obtain_packet_length-le : (packet_type : ℕ) → obtain_packet_length packet_type ≤ packet_size
obtain_packet_length-le t = (obtain_packet_length-bounds t).1

pub obtain_packet_length-known :
    (t : ℕ) → (obtain_packet_length t ≡ 0) ⊎ (85 ≤ obtain_packet_length t)
obtain_packet_length-known t = ground (arith, (obtain_packet_length-bounds t).0)
