-- ===== src/Platform/Concrete.antt =====
-- A platform that computes: JSON values as a data type, a database that is the log of its commands,
-- a disk that is the log of its writes, and one connection in memory.
use pick_up_the_light_server.Prelude.{
  take, drop, ◌==◌, replicate, ◌+◌, ◌/◌, Bool, true, false, Option, none, some, List, [], ◌∷◌, ◌++◌,
  length, ltb, if◌then◌else◌,
}
use pick_up_the_light_server.Prelude.Int.{ℤ, pos, negsuc}
use pick_up_the_light_server.Text.{Bytes, ◌==◌ as bytes_eq}
use pick_up_the_light_server.Transfer.Pipe.{pipe_sockets}
use pick_up_the_light_server.Snowflake.{new_id_worker, twepoch}
use pick_up_the_light_server.Platform.{JsonLib, Mysql, Files, Platform, World}

-- An object is `entry key value rest` on `null`, an array `item rest value`.
pub data Value : Type 0 where
  null : Value
  string : Bytes → Value
  number : ℤ → Value
  boolean : Bool → Value
  entry : Bytes → Value → Value → Value
  item : Value → Value → Value

unfoldable pub field : Bytes → Value → Option Value
unfolding bytes_eq
field key (entry k v rest) = let other = field key rest in if bytes_eq k key then some v else other
field key null = some null
field key _ = none

-- A text that tells values of one shape apart, with a byte before each part.
unfoldable pub dump : Value → Bytes
dump null = 48 ∷ []
dump (string s) = 34 ∷ s
dump (number (pos n)) = 49 ∷ n ∷ []
dump (number (negsuc n)) = 45 ∷ n ∷ []
dump (boolean true) = 116 ∷ []
dump (boolean false) = 102 ∷ []
dump (entry k v rest) = 123 ∷ k ++ 58 ∷ dump v ++ dump rest
dump (item rest v) = 91 ∷ dump rest ++ dump v

abbrev same_int : ℤ → ℤ → Bool
same_int (pos m) (pos n) = m == n
same_int (negsuc m) (negsuc n) = m == n
same_int _ _ = false

-- `text` is what `parse` gives for any text.
abbrev pub values : Value → JsonLib
values text = record {
  Json = Value;
  null = null;
  parse = λ bs. some text;
  dump = λ v. some (dump v);
  field = field;
  put_field = entry;
  push_back = λ front v. item front v;
  from_string = string;
  from_int = number;
  from_bool = boolean;
  to_str = λ v. elim v [ string s ↦ some s | _ ↦ none ];
  to_num = λ v. elim v [ number n ↦ some n | _ ↦ none ];
  to_bool = λ v. elim v [ boolean b ↦ some b | _ ↦ none ];
  equals_int = λ v n. elim v [ number k ↦ same_int k n | _ ↦ false ];
}

-- `answer` tells the rows of a query from the commands so far, the latest first.
abbrev pub command_log : (Bytes → List Bytes → Option (List (List Bytes))) → Mysql
command_log answer = record {
  Db = List Bytes;
  execute = λ command log. (true, command ∷ log);
  store = answer;
  cell_to_int = λ bs. some (pos (length bs));
  cell_to_bool = λ bs. some true;
}

abbrev pub write_log : Files
write_log = record {
  Disk = List Bytes;
  remove_file = λ path log. (true, path ∷ log);
  write_file = λ path content log. path ∷ content ∷ log;
  file_size = λ path log. elim log [ [] ↦ none | content ∷ older ↦ some (length content) ];
  read_file = λ path log. elim log [ [] ↦ none | content ∷ older ↦ some content ];
}

abbrev pub concrete : Value → (Bytes → List Bytes → Option (List (List Bytes))) → Platform
concrete text answer = record {
  json = values text;
  mysql = command_log answer;
  files = write_log;
  sockets = pipe_sockets;
  asio_read = λ socket_ptr n pipe. (
    if ltb (length pipe.inbox) n then none else some (take n pipe.inbox),
    record pipe { inbox = drop n pipe.inbox },
  );
  asio_write = λ socket_ptr bs pipe. (true, record pipe { outbox = pipe.outbox ++ bs });
  reading = λ k. twepoch + 1 + k / 3;
  rounds = 100;
  garbage = λ n. replicate n 0;
}

-- Connection 7 is there, with nobody logged in.
abbrev pub quiet_world :
    (text : Value) (answer : Bytes → List Bytes → Option (List (List Bytes)))
    → World (concrete text answer)
quiet_world text answer = record {
  db = [];
  disk = [];
  net = record { inbox = []; outbox = []; signals = 0 };
  live_list = [];
  evaluator = record { m_map = (7, record { ip = []; user_id = []; num = 0 }) ∷ []; hang_ups = [] };
  id_worker = new_id_worker;
  watched = [];
  closed = [];
}
