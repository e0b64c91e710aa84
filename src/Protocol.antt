-- ===== src/Protocol.antt =====
-- config.h: the constants, the enumerations and the header of the packets that client and server
-- exchange, as it lies in memory and on the wire (two 32-bit words, lowest byte first).
pub mod Layout
use pick_up_the_light_server.Prelude.{
  ℕ, zero, suc, get_elem?, ◌+◌, ◌*◌, ◌/◌, ◌%◌, ◌^◌, Option, none, some, List, [], ◌∷◌, ◌++◌,
}
use pick_up_the_light_server.Prelude.Int.{ℤ, pos, negsuc}
use pick_up_the_light_server.Text.{Bytes}

abbrev pub listen_port : ℕ
listen_port = 2222

abbrev pub listen_backlog : ℕ
listen_backlog = 5

abbrev pub max_epoll_events : ℕ
max_epoll_events = 10

abbrev pub buf_size : ℕ
buf_size = 1024 * 10

abbrev pub file_buf_size : ℕ
file_buf_size = 1024 * 1024 * 1024

abbrev pub change_thread_number : ℕ
change_thread_number = 2

abbrev pub min_thread_number : ℕ
min_thread_number = 3

pub data Purpose : Type 0 where
  heart register login send_file get_file get_info modify_info chat : Purpose

pub data FileType : Type 0 where
  profile_picture video_preview_img chat_img video : FileType

pub data InfoType : Type 0 where
  comment video_like comment_like follow fans vod_list live_list video nick_name : InfoType
  video_profile user_video user_video_like message video_push : InfoType

pub data MessageType : Type 0 where
  video_preview_img chat_img characters : MessageType

-- The numbers behind the enumerators, in the order of the declarations.
unfoldable pub purpose_code : Purpose → ℕ
purpose_code heart = 0
purpose_code register = 1
purpose_code login = 2
purpose_code send_file = 3
purpose_code get_file = 4
purpose_code get_info = 5
purpose_code modify_info = 6
purpose_code chat = 7

unfoldable pub file_type_code : FileType → ℕ
file_type_code profile_picture = 0
file_type_code FileType.video_preview_img = 1
file_type_code FileType.chat_img = 2
file_type_code FileType.video = 3

unfoldable pub info_type_code : InfoType → ℕ
info_type_code comment = 0
info_type_code video_like = 1
info_type_code comment_like = 2
info_type_code follow = 3
info_type_code fans = 4
info_type_code vod_list = 5
info_type_code live_list = 6
info_type_code InfoType.video = 7
info_type_code nick_name = 8
info_type_code video_profile = 9
info_type_code user_video = 10
info_type_code user_video_like = 11
info_type_code message = 12
info_type_code video_push = 13

unfoldable pub message_type_code : MessageType → ℕ
message_type_code MessageType.video_preview_img = 0
message_type_code MessageType.chat_img = 1
message_type_code characters = 2

-- What a `switch` over a value read from outside sees: an enumerator, or none.
unfoldable pub to_purpose : ℕ → Option Purpose
to_purpose zero = some heart
to_purpose (suc zero) = some register
to_purpose (suc (suc zero)) = some login
to_purpose (suc (suc (suc zero))) = some send_file
to_purpose (suc (suc (suc (suc zero)))) = some get_file
to_purpose (suc (suc (suc (suc (suc zero))))) = some get_info
to_purpose (suc (suc (suc (suc (suc (suc zero)))))) = some modify_info
to_purpose (suc (suc (suc (suc (suc (suc (suc zero))))))) = some chat
to_purpose (suc (suc (suc (suc (suc (suc (suc (suc n)))))))) = none

-- The same for an enumeration that comes as a JSON number.
unfoldable pub to_file_type : ℤ → Option FileType
to_file_type (pos n) =
    get_elem?
      (profile_picture ∷ FileType.video_preview_img ∷ FileType.chat_img ∷ FileType.video ∷ []) n
to_file_type (negsuc n) = none

unfoldable pub to_info_type : ℤ → Option InfoType
to_info_type (pos n) =
    get_elem?
      (comment ∷ video_like ∷ comment_like ∷ follow ∷ fans ∷ vod_list ∷ live_list ∷ InfoType.video
        ∷ nick_name ∷ video_profile ∷ user_video ∷ user_video_like ∷ message ∷ video_push ∷ [])
      n
to_info_type (negsuc n) = none

unfoldable pub to_message_type : ℤ → Option MessageType
to_message_type (pos n) =
    get_elem? (MessageType.video_preview_img ∷ MessageType.chat_img ∷ characters ∷ []) n
to_message_type (negsuc n) = none

-- `NetPacketHeader`. `purpose` is the number that stands there, of an enumerator or not.
pub record NetPacketHeader : Type 0 where
  pub purpose : ℕ
  pub data_size : ℕ

-- `sizeof(NetPacketHeader)`
abbrev pub header_size : ℕ
header_size = 8

abbrev word : ℕ → Bytes
word w = w % 256 ∷ w / 256 % 256 ∷ w / 65536 % 256 ∷ w / 16777216 % 256 ∷ []

unfoldable pub header_bytes : NetPacketHeader → Bytes
header_bytes h = word h.purpose ++ word h.data_size

abbrev from_word : ℕ → ℕ → ℕ → ℕ → ℕ
from_word a b c d = a + 256 * b + 65536 * c + 16777216 * d

-- The header that the first eight bytes of a buffer are; `none` if there are fewer.
unfoldable pub to_header : Bytes → Option NetPacketHeader
to_header (a ∷ b ∷ c ∷ d ∷ e ∷ f ∷ g ∷ h ∷ rest) =
    some (record { purpose = from_word a b c d; data_size = from_word e f g h })
to_header _ = none
