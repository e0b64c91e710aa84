-- ===== src/Protocol/Layout.antt =====
-- The header survives the wire.
use pick_up_the_light_server.Prelude.{◌^◌, ◌<◌, ◌≡◌, refl, some, ◌++◌, arith, length}
use pick_up_the_light_server.Text.{Bytes}
use pick_up_the_light_server.Protocol.{
  NetPacketHeader, header_size, header_bytes, to_header, Purpose, heart, purpose_code, to_purpose,
}

pub to_header-header_bytes :
    (h : NetPacketHeader) (rest : Bytes)
    → h.purpose < 2 ^ 32
    → h.data_size < 2 ^ 32
    → to_header (header_bytes h ++ rest) ≡ some h
unfolding to_header header_bytes
to_header-header_bytes h rest p s = ground arith

pub length-header_bytes : (h : NetPacketHeader) → length (header_bytes h) ≡ header_size
unfolding header_bytes
length-header_bytes h = refl

pub to_purpose-purpose_code : (p : Purpose) → to_purpose (purpose_code p) ≡ some p
unfolding to_purpose purpose_code
to_purpose-purpose_code heart = refl
to_purpose-purpose_code _ = refl

pub purpose_code-lt : (p : Purpose) → purpose_code p < 2 ^ 32
unfolding purpose_code
purpose_code-lt heart = omega arith
purpose_code-lt _ = omega arith
