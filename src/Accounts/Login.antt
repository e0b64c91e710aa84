-- ===== src/Accounts/Login.antt =====
-- What registration and login come to.
use pick_up_the_light_server.Prelude.{
  ℕ, ◌≡◌, ◌≢◌, refl, ap, sym, ◌∙◌, true, false, Option, none, some, List, [], ◌∷◌, arith,
}
use pick_up_the_light_server.Outcome.{ok}
use pick_up_the_light_server.Text.{Bytes, bytes, ==_iff}
use pick_up_the_light_server.Table.{number_key, lookup, adjust}
use pick_up_the_light_server.Evaluator.{Info, add_user_id, at_put}
use pick_up_the_light_server.Platform.{Platform, World}
use pick_up_the_light_server.Database.{query_execute, query_store}
use pick_up_the_light_server.Accounts.{
  select_id, insert_user, select_pw, register_new, do_register, login_as, do_login,
}

module _ (P : Platform) where
  open P use {json, mysql}

  -- The request is a JSON object with the strings `id` and `pw`.
  pub record Asks (str_msg id pw : Bytes) : Type 0 where
    pub msg : json.Json
    pub parsed : json.parse str_msg ≡ some msg
    pub id_field : json.Json
    pub has_id : json.field (bytes "id") msg ≡ some id_field
    pub id_str : json.to_str id_field ≡ some id
    pub pw_field : json.Json
    pub has_pw : json.field (bytes "pw") msg ≡ some pw_field
    pub pw_str : json.to_str pw_field ≡ some pw

  -- What MySQL does with a row that was inserted where there was none.
  pub record Remembers (id pw : Bytes) (db : mysql.Db) : Type 0 where
    pub row_by_id :
        mysql.store (select_id id) db ≡ some []
        → mysql.store (select_id id) (mysql.execute (insert_user id pw) db).1
          ≡ some ((id ∷ []) ∷ [])
    pub row_by_pw :
        mysql.store (select_id id) db ≡ some []
        → mysql.store (select_pw id) (mysql.execute (insert_user id pw) db).1
          ≡ some ((pw ∷ []) ∷ [])

  do_register-Asks :
      (str_msg id pw : Bytes) (w : World P)
      → Asks str_msg id pw
      → do_register P str_msg w ≡ register_new P id pw (mysql.store (select_id id) w.db) w
  unfolding do_register query_store
  do_register-Asks str_msg id pw w a = rw (a.parsed, a.has_id, a.id_str, a.has_pw, a.pw_str) refl

  do_login-Asks :
      (fd : ℕ) (str_msg id pw : Bytes) (w : World P)
      → Asks str_msg id pw
      → do_login P fd str_msg w ≡ login_as P fd id pw (mysql.store (select_pw id) w.db) w
  unfolding do_login query_store
  do_login-Asks fd str_msg id pw w a = rw (a.parsed, a.has_id, a.id_str, a.has_pw, a.pw_str) refl

  -- A registration that succeeds found no row, and has run the command that inserts one.
  register_new-true :
      (id pw : Bytes) (res : Option (List (List Bytes))) (w w' : World P)
      → register_new P id pw res w ≡ (ok true, w')
      → (res ≡ some []) × (w' ≡ record w { db = (mysql.execute (insert_user id pw) w.db).1 })
  unfolding register_new query_execute
  register_new-true id pw none w w' h = ground (arith, h)
  register_new-true id pw (some []) w w' h = (refl, sym (ap (λ r. r.1) h))
  register_new-true id pw (some (row ∷ rows)) w w' h = ground (arith, h)

  registered :
      (str_msg id pw : Bytes) (w w' : World P)
      → Asks str_msg id pw
      → do_register P str_msg w ≡ (ok true, w')
      → (mysql.store (select_id id) w.db ≡ some [])
        × (w' ≡ record w { db = (mysql.execute (insert_user id pw) w.db).1 })
  registered str_msg id pw w w' a h =
      register_new-true id pw (mysql.store (select_id id) w.db) w w'
        (sym (do_register-Asks str_msg id pw w a) ∙ h)

  login_as-some :
      (fd : ℕ) (id pw : Bytes) (rows : List (List Bytes)) (w : World P) (info : Info)
      → lookup fd w.evaluator.m_map ≡ some info
      → login_as P fd id pw (some ((pw ∷ []) ∷ rows)) w ≡ (
        ok true,
        record w {
          evaluator = record w.evaluator {
            m_map = adjust fd (λ i. record i { user_id = id }) w.evaluator.m_map;
          };
        },
      )
  unfolding login_as add_user_id at_put lookup adjust
  login_as-some fd id pw rows w info known = rw ((==_iff pw pw).1 refl, known) refl

  -- Where the database remembers the row, an account that was registered logs in with its password
  -- on a connection that is known: the user's id is noted for the connection, and nothing else
  -- changes.
  pub do_login-do_register :
      (fd : ℕ) (str_msg id pw : Bytes) (w w' : World P) (info : Info)
      → Asks str_msg id pw
      → Remembers id pw w.db
      → lookup fd w.evaluator.m_map ≡ some info
      → do_register P str_msg w ≡ (ok true, w')
      → do_login P fd str_msg w' ≡ (
        ok true,
        record w' {
          evaluator = record w'.evaluator {
            m_map = adjust fd (λ i. record i { user_id = id }) w'.evaluator.m_map;
          };
        },
      )
  do_login-do_register fd str_msg id pw w w' info a r known h =
      let (free, e) = registered str_msg id pw w w' a h in
      let found = ap (λ v. mysql.store (select_pw id) v.db) e ∙ r.row_by_pw free in
      let same = ap (λ v. lookup fd v.evaluator.m_map) e ∙ known in
      do_login-Asks fd str_msg id pw w' a
      ∙ ap (λ res. login_as P fd id pw res w') found
      ∙ login_as-some fd id pw [] w' info same

  -- A login with another password than that of the account is refused, and changes nothing.
  pub do_login-other_pw :
      (fd : ℕ) (str_msg id pw real_pw : Bytes) (rows : List (List Bytes)) (w : World P)
      → Asks str_msg id pw
      → mysql.store (select_pw id) w.db ≡ some ((real_pw ∷ []) ∷ rows)
      → pw ≢ real_pw
      → do_login P fd str_msg w ≡ (ok false, w)
  unfolding login_as
  do_login-other_pw fd str_msg id pw real_pw rows w a found other =
      do_login-Asks fd str_msg id pw w a ∙ rw found (ground (arith, ==_iff pw real_pw, other))

  -- A second registration of an account that was registered is refused, whatever its password, and changes nothing.
  pub do_register-twice :
      (str_msg again id pw other_pw : Bytes) (w w' : World P)
      → Asks str_msg id pw
      → Asks again id other_pw
      → Remembers id pw w.db
      → do_register P str_msg w ≡ (ok true, w')
      → do_register P again w' ≡ (ok false, w')
  unfolding register_new
  do_register-twice str_msg again id pw other_pw w w' a a' r h =
      let (free, e) = registered str_msg id pw w w' a h in
      do_register-Asks again id other_pw w' a' ∙ rw (e, r.row_by_id free) refl
