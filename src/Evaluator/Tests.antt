-- ===== src/Evaluator/Tests.antt =====
-- Runs of the heartbeat table, and its theorems at concrete data.
use pick_up_the_light_server.Prelude.{ℕ, ◌≡◌, refl, none, [], ◌∷◌, arith}
use pick_up_the_light_server.Outcome.{ok}
use pick_up_the_light_server.Table.{lookup, erase, adjust, number_key}
use pick_up_the_light_server.Table.Laws.{NodupKeys}
use pick_up_the_light_server.Evaluator.{
  Info, epoll_delete, close, Evaluator, new_info, check, check_boost,
}
use pick_up_the_light_server.Evaluator.Reference.{check-aged_all}
use pick_up_the_light_server.Evaluator.Liveness.{checks, lookup-checks}

abbrev info_at : ℕ → Info
info_at n = record (new_info (49 ∷ [])) { num = n }

abbrev two_connections : Evaluator ℕ
two_connections = record { m_map = (7, info_at 3) ∷ (8, info_at 1) ∷ []; hang_ups = [] }

distinct : NodupKeys two_connections.m_map
unfolding lookup
distinct = (refl, (refl, tt))

-- Descriptor 7 has been silent for three checks.
dropped :
    check two_connections
    ≡ (ok tt, record { m_map = (8, info_at 2) ∷ []; hang_ups = epoll_delete 7 ∷ close 7 ∷ [] })
unfolding check lookup erase adjust
dropped = refl

check-aged_all_example :
    (check two_connections
      ≡ (ok tt, record { m_map = (8, info_at 2) ∷ []; hang_ups = epoll_delete 7 ∷ close 7 ∷ [] }))
    × (check_boost two_connections
        ≡ (ok tt, record { m_map = (8, info_at 2) ∷ []; hang_ups = close 7 ∷ [] }))
check-aged_all_example = check-aged_all two_connections distinct

lookup-checks_example : lookup 8 (checks 3 two_connections).m_map ≡ none
unfolding lookup
lookup-checks_example = lookup-checks 3 8 (info_at 1) two_connections distinct refl (omega arith)
