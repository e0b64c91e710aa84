-- ===== src/ReceiveFile/Push.antt =====
-- Who is told of a new video.
use pick_up_the_light_server.Prelude.{
  ◌≡◌, Bool, true, not, ◌&&◌, ◌==◌, some, List, [], ◌∷◌, ◌++◌, map,
}
use pick_up_the_light_server.Text.{Bytes, bytes}
use pick_up_the_light_server.Platform.{Mysql, Platform, World}

-- A text that stands between quotes in a command as it is.
abbrev pub is_plain : Bytes → Bool
is_plain [] = true
is_plain (b ∷ bs) = not (b == 39) && is_plain bs

abbrev pub all_plain : List Bytes → Bool
all_plain [] = true
all_plain (bs ∷ rest) = is_plain bs && all_plain rest

-- A result of one column, as rows.
abbrev pub column : List Bytes → List (List Bytes)
column [] = []
column (follower ∷ followers) = (follower ∷ []) ∷ column followers

-- What MySQL documents of two of the tables of dbbroker.cpp, Follow(userId, followerId) and
-- VideoPush(userId, videoId): the answer to the question for the followers of a user, and the row
-- that a command of insertion adds.
pub record HasTables (M : Mysql) : Type 0 where
  pub followers : Bytes → M.Db → List Bytes
  pub pushes : M.Db → List (Bytes × Bytes)
  pub asks :
      (user_id : Bytes) (db : M.Db)
      → M.store (bytes "select followerId from Follow where userId = " ++ user_id) db
        ≡ some (column (followers user_id db))
  pub inserts :
      (user_id video_id : Bytes) (db : M.Db)
      → is_plain user_id ≡ true
      → is_plain video_id ≡ true
      → pushes
          (M.execute
            (bytes "insert into VideoPush Values('"
              ++ user_id
              ++ bytes "', '"
              ++ video_id
              ++ bytes "')")
            db).1
        ≡ pushes db ++ (user_id, video_id) ∷ []

module _ (P : Platform) (T : HasTables P.mysql) where
  open P use {json, mysql}
  open T use {followers, pushes, asks, inserts}

  abbrev pub rows_for : Bytes → List Bytes → List (Bytes × Bytes)
  rows_for video_id users = map (λ user_id. (user_id, video_id)) users

  -- What a push does: rows are added, and nothing but the database changes.
  pub record Pushes (video_id : Bytes) (users : List Bytes) (w w' : World P) : Type 0 where
    pub added : pushes w'.db ≡ pushes w.db ++ rows_for video_id users
    pub rest : w' ≡ record w { db = w'.db }
