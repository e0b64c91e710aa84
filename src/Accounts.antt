-- ===== src/Accounts.antt =====
-- initcontrol.h and initcontrol.cpp: registration and login.
pub mod Login
pub mod Frame
mod Tests
use pick_up_the_light_server.Prelude.{
  ℕ, Bool, true, false, Option, none, some, List, [], ◌∷◌, ◌++◌, if◌then◌else◌,
}
use pick_up_the_light_server.Outcome.{Exec, pure, ◌>>=◌, ◌>>◌}
use pick_up_the_light_server.Text.{Bytes, bytes, ◌==◌}
use pick_up_the_light_server.Table.{number_key}
use pick_up_the_light_server.Evaluator.{add_user_id}
use pick_up_the_light_server.Platform.{Platform, World, Run, parse, str_field, cell, on_evaluator}
use pick_up_the_light_server.Database.{query_execute, query_store}

-- The commands, as text.
unfoldable pub select_id : Bytes → Bytes
unfolding bytes
select_id id = bytes "select id from User where id = " ++ id

unfoldable pub insert_user : Bytes → Bytes → Bytes
unfolding bytes
insert_user id pw =
    bytes "insert into User(id, pw) values('" ++ id ++ bytes "','" ++ pw ++ bytes "')"

unfoldable pub select_pw : Bytes → Bytes
unfolding bytes
select_pw id = bytes "select pw from User where id = " ++ id

module _ (P : Platform) where
  -- `do_register` behind the query: the account is new if the query found no row.
  register_new : Bytes → Bytes → Option (List (List Bytes)) → Run P Bool
  unfolding query_execute insert_user
  register_new id pw none = pure false
  register_new id pw (some []) = query_execute P (insert_user id pw)
  register_new id pw (some (row ∷ rows)) = pure false

  unfoldable pub do_register : Bytes → Run P Bool
  unfolding register_new query_store select_id bytes
  do_register str_msg = do
    json_msg ← parse P str_msg
    id ← str_field P (bytes "id") json_msg
    pw ← str_field P (bytes "pw") json_msg
    res ← query_store P (select_id id)
    register_new id pw res

  -- `do_login` behind the query: the password is compared with that of the first row.
  login_as : ℕ → Bytes → Bytes → Option (List (List Bytes)) → Run P Bool
  unfolding add_user_id ◌==◌
  login_as fd id pw none = pure false
  login_as fd id pw (some []) = pure false
  login_as fd id pw (some (row ∷ rows)) = do
    real_pw ← cell P 0 row
    if pw == real_pw then on_evaluator P (add_user_id fd id) >> pure true else pure false

  unfoldable pub do_login : ℕ → Bytes → Run P Bool
  unfolding login_as query_store select_pw bytes
  do_login fd str_msg = do
    json_msg ← parse P str_msg
    id ← str_field P (bytes "id") json_msg
    pw ← str_field P (bytes "pw") json_msg
    res ← query_store P (select_pw id)
    login_as fd id pw res

  -- The overload for a socket.
  unfoldable pub do_login_boost : ℕ → Bytes → Run P Bool
  unfolding do_login
  do_login_boost socket_ptr str_msg = do_login socket_ptr str_msg
