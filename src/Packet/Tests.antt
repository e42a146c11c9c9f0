-- ===== src/Packet/Tests.antt =====
-- The sizes that the source asserts, and a length of each kind.
use trifecta_sdk.Common.{◌≡◌, ◌≤◌, refl, [], ◌∷◌}
use trifecta_sdk.Packet.Member.{size_of}
use trifecta_sdk.Packet.Structs.{composite_packet, regular_packet, composite_packet_2}
use trifecta_sdk.Packet.Structs64.{composite_packet_64, regular_packet_64, composite_packet_64_2}
use trifecta_sdk.Packet.Laws.{asserted, asserted_size, obtain_packet_length-bounds}
use trifecta_sdk.Packet.{family_of, obtain_packet_length, packet_size}

sizes :
    size_of composite_packet
      ∷ size_of regular_packet
      ∷ size_of composite_packet_2
      ∷ size_of composite_packet_64
      ∷ size_of regular_packet_64
      ∷ size_of composite_packet_64_2
      ∷ []
    ≡ 145 ∷ 85 ∷ 181 ∷ 149 ∷ 89 ∷ 185 ∷ []
unfolding size_of
sizes = refl

length_ins : obtain_packet_length 10 ≡ 181
unfolding obtain_packet_length family_of size_of
length_ins = refl

length_high_rate : obtain_packet_length 21 ≡ 0
unfolding obtain_packet_length family_of
length_high_rate = refl

obtain_packet_length-bounds_example :
    (obtain_packet_length 104 ≡ asserted_size 104 asserted)
    × (obtain_packet_length 104 ≤ packet_size)
obtain_packet_length-bounds_example = obtain_packet_length-bounds 104
