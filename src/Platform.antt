-- ===== src/Platform.antt =====
-- The state that the controllers of the server share (the singletons of singleton.h), and what the
-- program takes from outside: the JSON library, the database, the disk, the clock and the network.
pub mod Concrete
pub mod Frame
use pick_up_the_light_server.Prelude.{
  ℕ, ◌-◌, ◌^◌, Bool, true, false, Option, none, some, List, [], ◌∷◌, ◌++◌, get_elem?, length,
}
use pick_up_the_light_server.Prelude.Int.{ℤ, pos, negsuc}
use pick_up_the_light_server.Outcome.{
  Exception, system_error, type_error, parse_error, bad_index, Outcome, ok, throws, undefined,
  waiting, Exec, pure, throw, continue, ◌>>=◌, ◌>>◌,
}
use pick_up_the_light_server.Text.{Bytes, bytes, to_string}
use pick_up_the_light_server.Table.{Table}
use pick_up_the_light_server.Evaluator.{Evaluator, add_user_id}
use pick_up_the_light_server.Snowflake.{IdWorker, get_id, next_id}
use pick_up_the_light_server.Transfer.{Sockets, my_send}

-- `nlohmann::json`. An answer `none` is an exception: of `parse` a `parse_error`, of the others a
-- `type_error`.
pub record JsonLib : Type 1 where
  pub Json : Type 0
  pub null : Json
  pub parse : Bytes → Option Json
  -- `dump` refuses a string that is not UTF-8.
  pub dump : Json → Option Bytes
  -- `j[key]` as a value: null where the key is missing, refused where `j` is not an object.
  pub field : Bytes → Json → Option Json
  -- `j[key] = v` on an object, or on null, which becomes one.
  pub put_field : Bytes → Json → Json → Json
  -- `j.push_back(v)` on an array, or on null, which becomes one.
  pub push_back : Json → Json → Json
  pub from_string : Bytes → Json
  pub from_int : ℤ → Json
  pub from_bool : Bool → Json
  pub to_str : Json → Option Bytes
  pub to_num : Json → Option ℤ
  pub to_bool : Json → Option Bool
  -- `j == n`
  pub equals_int : Json → ℤ → Bool

-- MySQL behind mysql++: `execute` tells whether the command succeeded, and the rows of `store` are
-- `none` where the query failed.
pub record Mysql : Type 1 where
  pub Db : Type 0
  pub execute : Bytes → Db → Bool × Db
  pub store : Bytes → Db → Option (List (List Bytes))
  -- A cell as an `int` and as a `bool`; `none` is a `mysqlpp::BadConversion`.
  pub cell_to_int : Bytes → Option ℤ
  pub cell_to_bool : Bytes → Option Bool

-- The disk: `remove(path) == 0`, writing a file anew, `st_size` of `stat`, and the content that an
-- `ifstream` reads; `none` where `stat` or the opening fails. A path ends at its first zero byte.
pub record Files : Type 1 where
  pub Disk : Type 0
  pub remove_file : Bytes → Disk → Bool × Disk
  pub write_file : Bytes → Bytes → Disk → Disk
  pub file_size : Bytes → Disk → Option ℕ
  pub read_file : Bytes → Disk → Option Bytes

pub record Platform : Type 1 where
  pub json : JsonLib
  pub mysql : Mysql
  pub files : Files
  pub sockets : Sockets
  -- `boost::asio::read` of a number of bytes, and `write` of a whole buffer, on the same network;
  -- `none` and `false` if they throw.
  pub asio_read : ℕ → ℕ → sockets.Net → Option Bytes × sockets.Net
  pub asio_write : ℕ → Bytes → sockets.Net → Bool × sockets.Net
  -- The clock, and the rounds for which the loops that wait are followed.
  pub reading : ℕ → ℕ
  pub rounds : ℕ
  -- The bytes that are found in fresh memory.
  pub garbage : ℕ → Bytes

-- The objects behind `Singleton<...>::getInstance()`, with the outside state that they work on. A
-- connection is known by a number: the descriptor, or the number of the socket object.
pub record World (P : Platform) : Type 0 where
  pub db : P.mysql.Db
  pub disk : P.files.Disk
  pub net : P.sockets.Net
  pub live_list : Table Bytes Bytes
  pub evaluator : Evaluator ℕ
  pub id_worker : IdWorker
  -- The descriptors that epoll watches, and those that were closed.
  pub watched : List ℕ
  pub closed : List ℕ

-- `std::to_string(int)`
unfoldable pub int_to_string : ℤ → Bytes
unfolding to_string bytes
int_to_string (pos n) = to_string n
int_to_string (negsuc n) = bytes "-" ++ to_string (ℕ.suc n)

module _ (P : Platform) where
  abbrev pub Run : Type 0 → Type 0
  Run A = Exec (World P) A

  abbrev pub want : {A : Type 0} → Exception → Option A → Run A
  want e none = throw e
  want e (some a) = pure a

  abbrev pub parse : Bytes → Run P.json.Json
  parse buf = want parse_error (P.json.parse buf)

  abbrev pub field : Bytes → P.json.Json → Run P.json.Json
  field key j = want type_error (P.json.field key j)

  -- `string s = j[key]`
  abbrev pub str_field : Bytes → P.json.Json → Run Bytes
  str_field key j = do v ← field key j; want type_error (P.json.to_str v)

  -- `int n = j[key]`, also into an enumeration
  abbrev pub num_field : Bytes → P.json.Json → Run ℤ
  num_field key j = do v ← field key j; want type_error (P.json.to_num v)

  -- `bool b = j[key]`
  abbrev pub bool_field : Bytes → P.json.Json → Run Bool
  bool_field key j = do v ← field key j; want type_error (P.json.to_bool v)

  -- `row[i]`
  abbrev pub cell : ℕ → List Bytes → Run Bytes
  cell i row = want bad_index (get_elem? row i)

  abbrev pub on_evaluator : {A : Type 0} → Exec (Evaluator ℕ) A → Run A
  on_evaluator f w = let (r, e) = f w.evaluator in (r, record w { evaluator = e })

  abbrev pub on_net : {A : Type 0} → Exec P.sockets.Net A → Run A
  on_net f w = let (r, n) = f w.net in (r, record w { net = n })

  -- `std::to_string(Singleton<IdWorker>::getInstance()->nextId())`
  unfoldable pub new_id : Run Bytes
  unfolding next_id
  new_id w =
      let (r, g) = next_id P.reading P.rounds w.id_worker in
      continue r (λ n. pure (to_string n)) (record w { id_worker = g })

  -- How a controller answers: the overloads for a descriptor and for a socket differ in the call
  -- that sends.
  pub record Channel : Type 0 where
    pub key : ℕ
    pub send : Bytes → Run ℤ

  -- A send whose value the caller does not look at.
  abbrev pub transmit : Channel → Bytes → Run Unit
  transmit ch bs = ch.send bs >> pure tt

  -- `my_send(fd, ...)`
  unfoldable pub fd_channel : ℕ → Channel
  unfolding my_send
  fd_channel fd = record { key = fd; send = λ bs. on_net (my_send P.sockets P.rounds fd bs) }

  -- `boost::asio::write(*socket_ptr, ...)`, which writes all or throws.
  unfoldable pub socket_channel : ℕ → Channel
  socket_channel socket_ptr = record {
    key = socket_ptr;
    send = λ bs. on_net (λ net.
        let (sent, net') = P.asio_write socket_ptr bs net in
        (elim sent [ true ↦ ok (pos (length bs)) | false ↦ throws system_error ], net'));
  }
