-- ===== src/Accounts/Tests.antt =====
-- Accounts at concrete data: a database that knows user 12 once there was a command.
use pick_up_the_light_server.Prelude.{
  ◌≡◌, refl, true, false, Option, some, List, [], ◌∷◌, if◌then◌else◌,
}
use pick_up_the_light_server.Outcome.{ok}
use pick_up_the_light_server.Text.{Bytes, bytes, ◌==◌}
use pick_up_the_light_server.Table.{number_key, lookup, adjust}
use pick_up_the_light_server.Platform.{Platform, World}
use pick_up_the_light_server.Platform.Concrete.{
  Value, null, string, entry, field, concrete, quiet_world,
}
use pick_up_the_light_server.Database.{query_execute, query_store}
use pick_up_the_light_server.Accounts.{
  select_id, insert_user, select_pw, do_register, do_login, register_new,
}
use pick_up_the_light_server.Accounts.Login.{
  Asks, Remembers, do_login-do_register, do_register-twice,
}

abbrev user_id : Bytes
user_id = 49 ∷ 50 ∷ []

abbrev password : Bytes
password = 112 ∷ 119 ∷ []

abbrev request : Value
unfolding bytes
request = entry (bytes "id") (string user_id) (entry (bytes "pw") (string password) null)

-- The query for the id answers with the id, the other one with the password.
abbrev answer : Bytes → List Bytes → Option (List (List Bytes))
unfolding ◌==◌ select_id bytes
answer query [] = some []
answer query (command ∷ log) =
    if query == select_id user_id then some ((user_id ∷ []) ∷ []) else some ((password ∷ []) ∷ [])

abbrev platform : Platform
platform = concrete request answer

abbrev world : World platform
world = quiet_world request answer

abbrev registered_world : World platform
registered_world = record world { db = insert_user user_id password ∷ [] }

request-Asks : Asks platform [] user_id password
unfolding field bytes ◌==◌
request-Asks = record {
  msg = request;
  parsed = refl;
  id_field = string user_id;
  has_id = refl;
  id_str = refl;
  pw_field = string password;
  has_pw = refl;
  pw_str = refl;
}

world-Remembers : Remembers platform user_id password []
unfolding select_id select_pw bytes ◌==◌
world-Remembers = record { row_by_id = λ h. refl; row_by_pw = λ h. refl }

first_registration : do_register platform [] world ≡ (ok true, registered_world)
unfolding do_register register_new query_store query_execute select_id bytes field ◌==◌
first_registration = refl

do_login-do_register_example : do_login platform 7 [] registered_world ≡ (
  ok true,
  record registered_world {
    evaluator = record {
      m_map = (7, record { ip = []; user_id = user_id; num = 0 }) ∷ [];
      hang_ups = [];
    };
  },
)
unfolding lookup adjust
do_login-do_register_example =
    do_login-do_register platform 7 [] user_id password world registered_world
      (record { ip = []; user_id = []; num = 0 }) request-Asks world-Remembers refl
      first_registration

do_register-twice_example : do_register platform [] registered_world ≡ (ok false, registered_world)
do_register-twice_example =
    do_register-twice platform [] [] user_id password password world registered_world request-Asks
      request-Asks world-Remembers first_registration
