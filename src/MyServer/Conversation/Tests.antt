-- ===== src/MyServer/Conversation/Tests.antt =====
-- A connection at concrete data: a heartbeat, a chat message, and the end.
use pick_up_the_light_server.Prelude.{ℕ, List, ◌≡◌, refl, none, [], ◌∷◌, ◌++◌, arith}
use pick_up_the_light_server.Prelude.Int.{pos}
use pick_up_the_light_server.Outcome.{ok, throws, parse_error}
use pick_up_the_light_server.Text.{◌==◌, bytes, c_string}
use pick_up_the_light_server.Table.{lookup, erase, adjust}
use pick_up_the_light_server.Protocol.{
  chat, header_size, header_bytes, purpose_code, characters, to_message_type,
}
use pick_up_the_light_server.Transfer.{blocking, dont_wait, my_recv}
use pick_up_the_light_server.Transfer.Pipe.{pipe-IsStream, pending-pipe}
use pick_up_the_light_server.Platform.{Platform, World}
use pick_up_the_light_server.Platform.Concrete.{
  Value, null, string, number, entry, field, values, concrete, quiet_world,
}
use pick_up_the_light_server.Database.{query_execute}
use pick_up_the_light_server.Evaluator as Table
use pick_up_the_light_server.MyServer.{
  insert_message, serve_message, serve_chat, process_client_request,
}
use pick_up_the_light_server.MyServer.Framing.{request}
use pick_up_the_light_server.MyServer.Conversation.{
  Sent, heartbeat, text_request, TextRequest, stream, Handled, none_sent, one_beat, one_text,
  process_client_request-Handled,
}
use pick_up_the_light_server.MyServer.Conversation.Malformed.{process_client_request-parse_error}

abbrev message : Value
message = entry (bytes "sendId") (string (49 ∷ [])) (
    entry (bytes "receiveId") (string (50 ∷ [])) (
      entry (bytes "content") (string (104 ∷ 105 ∷ []))
        (entry (bytes "messagetype") (number (pos 2)) null)))

abbrev platform : Platform
platform = concrete message (λ query log. none)

no_zero : c_string (88 ∷ 89 ∷ []) ≡ 88 ∷ 89 ∷ []
unfolding c_string
no_zero = refl

-- What the client sends in place of the message, whose text the platform knows anyway.
abbrev chat_text : TextRequest
chat_text = record {
  purpose = chat;
  body = 88 ∷ 89 ∷ [];
  json = refl;
  fits = omega arith;
  some_data = omega arith;
  text = no_zero;
}

-- The bytes to come, and the count of the connection, which two checks have raised.
abbrev world : List ℕ → ℕ → World platform
world inbox count = record (quiet_world message (λ query log. none)) {
  net = record { inbox = inbox; outbox = []; signals = 0 };
  evaluator = record {
    m_map = (7, record { ip = []; user_id = []; num = count }) ∷ [];
    hang_ups = [];
  };
  watched = [];
}

abbrev sent : List Sent
sent = heartbeat ∷ text_request chat_text ∷ []

abbrev chat_header : List ℕ
chat_header = 7 ∷ 0 ∷ 0 ∷ 0 ∷ 2 ∷ 0 ∷ 0 ∷ 0 ∷ []

abbrev beat_header : List ℕ
beat_header = 0 ∷ 0 ∷ 0 ∷ 0 ∷ 0 ∷ 0 ∷ 0 ∷ 0 ∷ []

abbrev at_start : World platform
at_start = world (beat_header ++ chat_header ++ 88 ∷ 89 ∷ []) 2

abbrev after_beat : World platform
after_beat = world (chat_header ++ 88 ∷ 89 ∷ []) 0

abbrev after_chat : World platform
after_chat = record (world [] 0) {
  db = insert_message characters (49 ∷ []) (50 ∷ []) (104 ∷ 105 ∷ []) ∷ [];
}

chat-Handled : Handled platform pipe-IsStream 7 (text_request chat_text ∷ []) after_beat after_chat
unfolding my_recv serve_chat serve_message field bytes ◌==◌ query_execute to_message_type
chat-Handled =
    one_text (record { ret = pos 8; buf = chat_header })
      (record { ret = pos 2; buf = 88 ∷ 89 ∷ [] }) (world (88 ∷ 89 ∷ []) 0).net (world [] 0).net
      refl (λ e. ground arith) refl (λ e. ground arith) refl refl none_sent

all-Handled : Handled platform pipe-IsStream 7 sent at_start after_chat
unfolding my_recv Table.set_0 lookup adjust
all-Handled =
    one_beat (record { ret = pos 8; buf = beat_header }) after_beat.net refl (λ e. ground arith)
      refl chat-Handled

as_sent : pipe-IsStream.pending 7 at_start.net ≡ stream sent
unfolding header_bytes purpose_code
as_sent = pending-pipe 7 at_start.net

end_read :
    my_recv platform.sockets platform.rounds 7 (pos header_size) dont_wait after_chat.net
    ≡ (ok (record { ret = pos 0; buf = [] }), after_chat.net)
unfolding my_recv
end_read = refl

process_client_request-Handled_example : process_client_request platform 3 7 at_start ≡ (
  ok tt,
  record after_chat { evaluator = record { m_map = []; hang_ups = [] }; closed = 7 ∷ [] },
)
unfolding lookup erase
process_client_request-Handled_example =
    process_client_request-Handled platform pipe-IsStream 7 0 sent at_start after_chat
      (record { ret = pos 0; buf = [] }) after_chat.net all-Handled as_sent end_read
      (λ e. ground arith)

-- A platform on which no text is JSON.
abbrev no_json : Platform
no_json = record platform { json = record (values message) { parse = λ text. none } }

abbrev plain_world : List ℕ → ℕ → World no_json
plain_world inbox count = record {
  db = [];
  disk = [];
  net = record { inbox = inbox; outbox = []; signals = 0 };
  live_list = [];
  evaluator = record {
    m_map = (7, record { ip = []; user_id = []; num = count }) ∷ [];
    hang_ups = [];
  };
  id_worker = (world [] 0).id_worker;
  watched = [];
  closed = [];
}

abbrev all_bytes : List ℕ
all_bytes = beat_header ++ chat_header ++ 88 ∷ 89 ∷ []

beat-Handled :
    Handled no_json pipe-IsStream 7
      (heartbeat ∷ [])
      (plain_world all_bytes 2)
      (plain_world (chat_header ++ 88 ∷ 89 ∷ []) 0)
unfolding my_recv Table.set_0 lookup adjust
beat-Handled =
    one_beat (record { ret = pos 8; buf = beat_header })
      (plain_world (chat_header ++ 88 ∷ 89 ∷ []) 0).net refl (λ e. ground arith) refl none_sent

as_sent_malformed :
    pipe-IsStream.pending 7 (plain_world all_bytes 2).net
    ≡ stream (heartbeat ∷ []) ++ (request chat (88 ∷ 89 ∷ []) ++ [])
unfolding header_bytes purpose_code
as_sent_malformed = pending-pipe 7 (plain_world all_bytes 2).net

header_read :
    my_recv no_json.sockets no_json.rounds 7
      (pos header_size)
      dont_wait
      (plain_world (chat_header ++ 88 ∷ 89 ∷ []) 0).net
    ≡ (ok (record { ret = pos 8; buf = chat_header }), (plain_world (88 ∷ 89 ∷ []) 0).net)
unfolding my_recv
header_read = refl

body_read :
    my_recv no_json.sockets no_json.rounds 7 (pos 2) blocking (plain_world (88 ∷ 89 ∷ []) 0).net
    ≡ (ok (record { ret = pos 2; buf = 88 ∷ 89 ∷ [] }), (plain_world [] 0).net)
unfolding my_recv
body_read = refl

process_client_request-parse_error_example :
    process_client_request no_json 3 7 (plain_world all_bytes 2)
    ≡ (throws parse_error, plain_world [] 0)
process_client_request-parse_error_example =
    process_client_request-parse_error no_json pipe-IsStream 7 1 (heartbeat ∷ []) chat_text []
      (plain_world all_bytes 2) (plain_world (chat_header ++ 88 ∷ 89 ∷ []) 0)
      (record { ret = pos 8; buf = chat_header }) (record { ret = pos 2; buf = 88 ∷ 89 ∷ [] })
      (plain_world (88 ∷ 89 ∷ []) 0).net (plain_world [] 0).net beat-Handled as_sent_malformed refl
      header_read (λ e. ground arith) body_read (λ e. ground arith)
