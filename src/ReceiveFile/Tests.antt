-- ===== src/ReceiveFile/Tests.antt =====
-- A push at concrete data: user 12 has two followers.
use pick_up_the_light_server.Prelude.{
  ◌≡◌, refl, ap, ◌∙◌, Option, true, some, List, [], ◌∷◌, ◌++◌, arith, ◌==◌, drop, append_assoc,
  if◌then◌else◌,
}
use pick_up_the_light_server.Text.{Bytes, bytes}
use pick_up_the_light_server.Platform.{Mysql, Platform, World}
use pick_up_the_light_server.Platform.Concrete.{Value, null, string, entry, concrete, quiet_world}
use pick_up_the_light_server.ReceiveFile.Push.{is_plain, column, HasTables}

abbrev request : Value
request = entry (bytes "id") (string (49 ∷ 50 ∷ [])) null

-- A text up to the next quote, and what stands behind that quote.
to_quote : Bytes → Bytes × Bytes
to_quote [] = ([], [])
to_quote (b ∷ bs) = let rest = to_quote bs in if b == 39 then ([], bs) else (b ∷ rest.0, rest.1)

to_quote-plain : (bs rest : Bytes) → is_plain bs ≡ true → to_quote (bs ++ 39 ∷ rest) ≡ (bs, rest)
unfolding to_quote
to_quote-plain [] rest h = refl
to_quote-plain (b ∷ bs) rest h = ground (arith, h, to_quote-plain bs rest)

-- The two columns of a row, from behind the quote that opens the first.
columns : Bytes → Bytes × Bytes
unfolding to_quote
columns text = let (user_id, rest) = to_quote text in (user_id, (to_quote (drop 3 rest)).0)

columns-plain :
    (user_id video_id : Bytes)
    → is_plain user_id ≡ true
    → is_plain video_id ≡ true
    → columns (user_id ++ 39 ∷ 44 ∷ 32 ∷ 39 ∷ (video_id ++ 39 ∷ 41 ∷ [])) ≡ (user_id, video_id)
unfolding columns
columns-plain user_id video_id plain plain' =
    rw
      (
        to_quote-plain user_id (44 ∷ 32 ∷ 39 ∷ (video_id ++ 39 ∷ 41 ∷ [])) plain,
        to_quote-plain video_id (41 ∷ []) plain',
      )
      refl

-- The row of a command of insertion.
row_of : Bytes → Bytes × Bytes
row_of command = columns (drop 30 command)

-- A database that is the table of pushes, and in which everybody has the same two followers.
abbrev tables : Mysql
tables = record {
  Db = List (Bytes × Bytes);
  execute = λ command rows. (true, rows ++ row_of command ∷ []);
  store = λ query rows. some (column ((65 ∷ []) ∷ (66 ∷ []) ∷ []));
  cell_to_int = λ bs. Option.none;
  cell_to_bool = λ bs. Option.none;
}

row_of-insert :
    (user_id video_id : Bytes)
    → is_plain user_id ≡ true
    → is_plain video_id ≡ true
    → row_of (
        bytes "insert into VideoPush Values('" ++ user_id ++ bytes "', '" ++ video_id ++ bytes "')")
      ≡ (user_id, video_id)
unfolding row_of bytes
row_of-insert user_id video_id plain plain' =
    let quotes : Bytes = 39 ∷ 44 ∷ 32 ∷ 39 ∷ [] in
    let end : Bytes = 39 ∷ 41 ∷ [] in
    ap columns (
      append_assoc (user_id ++ quotes) video_id end ∙ append_assoc user_id quotes (video_id ++ end))
    ∙ columns-plain user_id video_id plain plain'

tables-HasTables : HasTables tables
unfolding row_of
tables-HasTables = record {
  followers = λ user_id rows. (65 ∷ []) ∷ (66 ∷ []) ∷ [];
  pushes = λ rows. rows;
  asks = λ user_id rows. refl;
  inserts = λ user_id video_id rows plain plain'.
      ap (λ row. rows ++ row ∷ []) (row_of-insert user_id video_id plain plain');
}

abbrev platform : Platform
platform = record (concrete request (λ query log. Option.none)) { mysql = tables }

-- Before the push the table has a row already.
abbrev world : World platform
world = record {
  db = (67 ∷ [], 57 ∷ []) ∷ [];
  disk = [];
  net = record { inbox = []; outbox = []; signals = 0 };
  live_list = [];
  evaluator = record { m_map = []; hang_ups = [] };
  id_worker = (quiet_world request (λ query log. Option.none)).id_worker;
  watched = [];
  closed = [];
}
