-- ===== src/Accounts/Frame.antt =====
-- What registration and login leave alone.
use pick_up_the_light_server.Prelude.{ℕ, true, false, Option, none, some, List, [], ◌∷◌}
use pick_up_the_light_server.Outcome.{ok, parse_error}
use pick_up_the_light_server.Text.{Bytes, bytes, ◌==◌}
use pick_up_the_light_server.Table.{number_key}
use pick_up_the_light_server.Evaluator.{add_user_id}
use pick_up_the_light_server.Platform.{Platform, World, on_evaluator}
use pick_up_the_light_server.Platform.Frame.{
  Keeps, bind-Keeps, then-Keeps, same-Keeps, if-Keeps, want-Keeps, str_field-Keeps, cell-Keeps,
  query_store-Keeps, query_execute-Keeps, IsApart,
}
use pick_up_the_light_server.Accounts.{register_new, do_register, login_as, do_login, insert_user}

module _ (P : Platform) {B : Type 0} (part : World P → B) where
  module _ (apart : IsApart P part) where
    register_new-Keeps :
        (id pw : Bytes) (res : Option (List (List Bytes))) → Keeps part (register_new P id pw res)
    unfolding register_new
    register_new-Keeps id pw none = same-Keeps part (ok false)
    register_new-Keeps id pw (some []) =
        query_execute-Keeps P part apart.db_free (insert_user id pw)
    register_new-Keeps id pw (some (row ∷ rows)) = same-Keeps part (ok false)

    pub do_register-Keeps : (buf : Bytes) → Keeps part (do_register P buf)
    unfolding do_register
    do_register-Keeps buf = bind-Keeps part (want-Keeps P part parse_error (P.json.parse buf)) λ j.
        bind-Keeps part (str_field-Keeps P part (bytes "id") j) λ id.
          bind-Keeps part (str_field-Keeps P part (bytes "pw") j)
            λ pw. bind-Keeps part (query_store-Keeps P part _) λ res. register_new-Keeps id pw res

  module _ (notes : (fd : ℕ) (id : Bytes) → Keeps part (on_evaluator P (add_user_id fd id))) where
    login_as-Keeps :
        (fd : ℕ) (id pw : Bytes) (res : Option (List (List Bytes)))
        → Keeps part (login_as P fd id pw res)
    unfolding login_as
    login_as-Keeps fd id pw none = same-Keeps part (ok false)
    login_as-Keeps fd id pw (some []) = same-Keeps part (ok false)
    login_as-Keeps fd id pw (some (row ∷ rows)) =
        bind-Keeps part (cell-Keeps P part 0 row) λ real_pw.
          if-Keeps part (pw == real_pw) (then-Keeps part (notes fd id) (same-Keeps part (ok true)))
            (same-Keeps part (ok false))

    pub do_login-Keeps : (fd : ℕ) (buf : Bytes) → Keeps part (do_login P fd buf)
    unfolding do_login
    do_login-Keeps fd buf = bind-Keeps part (want-Keeps P part parse_error (P.json.parse buf)) λ j.
        bind-Keeps part (str_field-Keeps P part (bytes "id") j) λ id.
          bind-Keeps part (str_field-Keeps P part (bytes "pw") j)
            λ pw. bind-Keeps part (query_store-Keeps P part _) λ res. login_as-Keeps fd id pw res
