-- ===== src/SendFile/Tests.antt =====
-- A file of three bytes, described by two.
use pick_up_the_light_server.Prelude.{ℕ, ◌≡◌, refl, none, [], ◌∷◌, length-replicate}
use pick_up_the_light_server.Outcome.{Outcome, ok}
use pick_up_the_light_server.Text.{Bytes, c_string}
use pick_up_the_light_server.Protocol.{buf_size}
use pick_up_the_light_server.Platform.{Platform}
use pick_up_the_light_server.Platform.Concrete.{null, concrete}
use pick_up_the_light_server.SendFile.{file_packet}
use pick_up_the_light_server.SendFile.Wire.{Downloads, file_packet-Downloads}

abbrev platform : Platform
platform = concrete null (λ query log. none)

abbrev info : Bytes
info = 123 ∷ 125 ∷ []

abbrev content : Bytes
content = 7 ∷ 8 ∷ 9 ∷ []

abbrev packet_of : Outcome Bytes → Bytes
packet_of (ok bs) = bs
packet_of _ = []

packet_made :
    file_packet platform 3 info content ≡ ok (packet_of (file_packet platform 3 info content))
unfolding file_packet
packet_made = refl

file_packet-Downloads_example :
    Downloads platform (packet_of (file_packet platform 3 info content)) info content 3
unfolding c_string
file_packet-Downloads_example =
    file_packet-Downloads platform 3 info content (packet_of (file_packet platform 3 info content))
      (length-replicate {A = ℕ} buf_size 0) (length-replicate {A = ℕ} 3 0) refl refl packet_made
