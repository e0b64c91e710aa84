-- ===== src/NetPackets/Tests.antt =====
-- An answer at concrete data.
use pick_up_the_light_server.Prelude.{◌≡◌, refl, some, [], ◌∷◌, ◌++◌}
use pick_up_the_light_server.Text.{Bytes}
use pick_up_the_light_server.Protocol.{get_info, purpose_code}
use pick_up_the_light_server.Platform.Concrete.{Value, null, string, entry, dump, values}
use pick_up_the_light_server.NetPackets.{NetPacket, packet_bytes, to_packet}
use pick_up_the_light_server.NetPackets.Wire.{unpack, to_packet-unpack}

abbrev answer : Value
answer = entry (115 ∷ []) (string (116 ∷ 114 ∷ [])) null

abbrev packet : NetPacket
packet = record {
  packet_header = record { purpose = 5; data_size = 7 };
  data_text = 123 ∷ 115 ∷ 58 ∷ 34 ∷ 116 ∷ 114 ∷ 48 ∷ [];
}

to_packet-unpack_example :
    (text : Bytes) × (some (dump answer) ≡ some text)
    × (unpack (packet_bytes packet ++ 9 ∷ 9 ∷ []) ≡ some (get_info, text, 9 ∷ 9 ∷ []))
unfolding to_packet dump purpose_code
to_packet-unpack_example = to_packet-unpack (values null) get_info answer packet (9 ∷ 9 ∷ []) refl
