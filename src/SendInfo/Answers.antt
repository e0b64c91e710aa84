-- ===== src/SendInfo/Answers.antt =====
-- sendinfocontrol.cpp: what the cases of `send_info` share, the answer to a query.
use pick_up_the_light_server.Prelude.{Option, none, some, List, [], ◌∷◌}
use pick_up_the_light_server.Outcome.{Outcome, pure, lift, ◌>>=◌}
use pick_up_the_light_server.Text.{Bytes}
use pick_up_the_light_server.Platform.{transmit, Platform, Run, Channel}
use pick_up_the_light_server.NetPackets.{NetPacket, packet_bytes}

module _ (P : Platform) where
  open P use {json, mysql}
  open json use {Json, null, put_field, push_back, from_string}

  -- The rows of a result, each made into a JSON value and pushed to the end of an array.
  unfoldable pub push_rows : (List Bytes → Run P Json) → Json → List (List Bytes) → Run P Json
  push_rows each list [] = pure list
  push_rows each list (row ∷ rows) = do v ← each row; push_rows each (push_back list v) rows

  -- A packet that is made and sent.
  unfoldable pub send_packet : Channel P → Outcome NetPacket → Run P Unit
  unfolding packet_bytes
  send_packet ch made = do p ← lift made; transmit P ch (packet_bytes p)

  -- The answer to a query: an object or array made of the rows, null where there is no row, and no
  -- answer at all where the query failed.
  unfoldable pub answer_rows :
      Channel P
      → (List Bytes → List (List Bytes) → Run P Json)
      → (Json → Outcome NetPacket)
      → Option (List (List Bytes))
      → Run P Unit
  unfolding send_packet
  answer_rows ch build packet none = pure tt
  answer_rows ch build packet (some []) = send_packet ch (packet null)
  answer_rows ch build packet (some (row ∷ rows)) = do v ← build row rows; send_packet ch (packet v)
