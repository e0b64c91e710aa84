-- ===== src/Database.antt =====
-- dbbroker.h and dbbroker.cpp: the one connection to the database. The broker hands commands on as
-- text; what the database does with them is the platform's.
use pick_up_the_light_server.Prelude.{Bool, Option, List, [], ◌∷◌}
use pick_up_the_light_server.Outcome.{ok, ◌>>◌, pure, gets}
use pick_up_the_light_server.Text.{Bytes, bytes}
use pick_up_the_light_server.Platform.{Platform, Run}

module _ (P : Platform) where
  unfoldable pub query_execute : Bytes → Run P Bool
  query_execute command w =
      let (done, db') = P.mysql.execute command w.db in (ok done, record w { db = db' })

  unfoldable pub query_store : Bytes → Run P (Option (List (List Bytes)))
  query_store command = gets (λ w. P.mysql.store command w.db)

  execute_all : List Bytes → Run P Unit
  unfolding query_execute
  execute_all [] = pure tt
  execute_all (command ∷ commands) = query_execute command >> execute_all commands

  -- `initDataBase`: a table for each kind of thing, whether or not it is there.
  unfoldable pub init_data_base : Run P Unit
  unfolding execute_all bytes
  init_data_base = execute_all (
      bytes
        "create table Video(id varchar(30), publisherId varchar(30), videoSuffix varchar(20), profile varchar(500), previewSuffix varchar(20), time datetime)"
      ∷ bytes
          "create table User(id varchar(30), pw varchar(30), nickName varchar(30), pictureSuffix varchar(20))"
      ∷ bytes
          "create table Message(sendId varchar(30), receiveId varchar(30), messageType int, message varchar(500), time datetime)"
      ∷ bytes
          "create table Comment(id varchar(30), replyCommentId varchar(30), publisherId varchar(30), videoId varchar(30), content varchar(500), time datetime)"
      ∷ bytes "create table VideoLike(videoId varchar(30), userId varchar(30))"
      ∷ bytes "create table CommentLike(commentId varchar(30), userId varchar(30))"
      ∷ bytes "create table Follow(userId varchar(30), followerId varchar(30))"
      ∷ bytes "create table VideoPush(userId varchar(30), videoId varchar(30))"
      ∷ [])
