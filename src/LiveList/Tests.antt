-- ===== src/LiveList/Tests.antt =====
-- The live list at concrete data.
use pick_up_the_light_server.Prelude.{◌≡◌, refl, none, some, List, [], ◌∷◌}
use pick_up_the_light_server.Outcome.{ok}
use pick_up_the_light_server.Text.{Bytes}
use pick_up_the_light_server.Text as T
use pick_up_the_light_server.Table.{Table, bytes_key, lookup, insert}
use pick_up_the_light_server.Table.Laws.{NodupKeys}
use pick_up_the_light_server.Platform.{Platform, World}
use pick_up_the_light_server.Platform.Concrete.{null, concrete, quiet_world}
use pick_up_the_light_server.LiveList.{add_live}
use pick_up_the_light_server.LiveList.Spec.{
  Call, begins, ends, view, meanings, perform_all, perform_all-meanings,
}

-- User 1 is live at address 5 and starts again at address 6.
starts_again : lookup (1 ∷ []) (add_live (1 ∷ []) (6 ∷ []) ((1 ∷ [], 5 ∷ []) ∷ [])) ≡ some (5 ∷ [])
unfolding lookup insert T.◌==◌
starts_again = refl

abbrev platform : Platform
platform = concrete null (λ query log. none)

abbrev world : World platform
world = record (quiet_world null (λ query log. none)) { live_list = (1 ∷ [], 5 ∷ []) ∷ [] }

abbrev calls : List Call
calls = begins (1 ∷ []) (6 ∷ []) ∷ ends (1 ∷ []) ∷ begins (2 ∷ []) (7 ∷ []) ∷ []

one_user : NodupKeys world.live_list
unfolding lookup
one_user = (refl, tt)

perform_all-meanings_example :
    (m : Table Bytes Bytes) × (perform_all platform calls world
      ≡ (ok tt, record world { live_list = m }))
    × (view m ≡ meanings calls (view world.live_list))
    × NodupKeys m
perform_all-meanings_example = perform_all-meanings platform calls world one_user
