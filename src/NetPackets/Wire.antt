-- ===== src/NetPackets/Wire.antt =====
-- An answer on the wire, and back.
use pick_up_the_light_server.Prelude.{
  take-length, take-append_length, drop-append_length, ℕ, ◌^◌, ◌<◌, ◌≡◌, refl, Option, none, some,
  ◌++◌, arith, append_assoc, length, take, drop, Option-cases, inl, inr, ap, ◌∙◌,
}
use pick_up_the_light_server.Outcome.{ok}
use pick_up_the_light_server.Text.{Bytes}
use pick_up_the_light_server.Protocol.{
  NetPacketHeader, header_bytes, header_size, to_header, Purpose, purpose_code, to_purpose,
}
use pick_up_the_light_server.Protocol.Layout.{
  to_header-header_bytes, to_purpose-purpose_code, purpose_code-lt,
}
use pick_up_the_light_server.Platform.{JsonLib}
use pick_up_the_light_server.NetPackets.{NetPacket, packet_bytes, to_packet}

-- A client's side of the protocol: eight bytes of header, then the data that it announces.
abbrev split_data : ℕ → Bytes → Option Purpose → Option (Purpose × Bytes × Bytes)
split_data size rest none = none
split_data size rest (some purpose) = some (purpose, take size rest, drop size rest)

unfoldable pub unpack : Bytes → Option (Purpose × Bytes × Bytes)
unfolding to_header to_purpose
unpack stream = elim (to_header stream) [
  | none ↦ none
  | some h ↦ split_data h.data_size (drop header_size stream) (to_purpose h.purpose)
]

drop_header :
    (h : NetPacketHeader) (rest : Bytes) → drop header_size (header_bytes h ++ rest) ≡ rest
unfolding header_bytes
drop_header h rest = refl

unpack-header :
    (h : NetPacketHeader) (purpose : Purpose) (rest : Bytes)
    → h.purpose ≡ purpose_code purpose
    → h.data_size < 2 ^ 32
    → unpack (header_bytes h ++ rest) ≡ some (purpose, take h.data_size rest, drop h.data_size rest)
unfolding unpack
unpack-header h purpose rest e small = ground (
  arith,
  e,
  to_header-header_bytes h rest (ground (arith, e, purpose_code-lt purpose)) small,
  to_purpose-purpose_code purpose,
  drop_header h rest,
)

whole :
    (purpose : Purpose) (text next : Bytes) (size : ℕ)
    → size ≡ length text
    → ◌≡◌ {A = Option (Purpose × Bytes × Bytes)}
        (some (purpose, take size (take size text ++ next), drop size (take size text ++ next)))
        (some (purpose, text, next))
whole purpose text next size e =
    rw (e, take-length text, take-append_length text next, drop-append_length text next) refl

packet-unpack :
    (p : NetPacket) (purpose : Purpose) (text next : Bytes)
    → p.packet_header.purpose ≡ purpose_code purpose
    → p.packet_header.data_size ≡ length text
    → p.data_text ≡ text
    → p.packet_header.data_size < 2 ^ 32
    → unpack (packet_bytes p ++ next) ≡ some (purpose, text, next)
unfolding packet_bytes
packet-unpack p purpose text next e size d small =
    let h = p.packet_header in
    ap (λ t. unpack ((header_bytes h ++ take h.data_size t) ++ next)) d
    ∙ ap unpack (append_assoc (header_bytes h) (take h.data_size text) next)
    ∙ unpack-header h purpose (take h.data_size text ++ next) e small
    ∙ whole purpose text next h.data_size size

module _ (J : JsonLib) where
  -- What the server sends for a packet that it has made is the header and the whole text of the
  -- JSON object: a client that reads the stream gets the purpose and the text, and finds what was sent
  -- next behind them.
  pub to_packet-unpack :
      (purpose : Purpose) (json_msg : J.Json) (p : NetPacket) (next : Bytes)
      → to_packet J purpose json_msg ≡ ok p
      → (text : Bytes) × (J.dump json_msg ≡ some text)
        × (unpack (packet_bytes p ++ next) ≡ some (purpose, text, next))
  unfolding to_packet
  to_packet-unpack purpose json_msg p next h = elim (Option-cases (J.dump json_msg)) [
    | inl e ↦ ground (arith, e, h)
    | inr (text, e) ↦ (
      text,
      e,
      packet-unpack p purpose text next (ground (arith, e, h)) (ground (arith, e, h))
          (ground (arith, e, h)) (ground (arith, e, h)),
    )
  ]
