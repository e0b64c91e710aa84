-- ===== src/Evaluator/Overlap/Tests.antt =====
-- Heartbeats beside a round of the check, at concrete data.
use pick_up_the_light_server.Prelude.{ℕ, ◌≡◌, refl, none, some, List, [], ◌∷◌, arith}
use pick_up_the_light_server.Outcome.{ok}
use pick_up_the_light_server.Table.{number_key, lookup, insert, adjust, erase}
use pick_up_the_light_server.Evaluator.{Info, Evaluator, no_connections}
use pick_up_the_light_server.Evaluator.Overlap.{
  Shared, sleeping, Event, added, removed, heart, logged_in, checking, handle, run,
}
use pick_up_the_light_server.Evaluator.Overlap.Lively.{run-lively}

-- A round into which a heartbeat comes, between the load and the store.
abbrev broken_round : List (Event ℕ)
broken_round = checking ∷ checking ∷ heart 5 ∷ checking ∷ checking ∷ []

abbrev at_num : ℕ → Shared ℕ
at_num n = record {
  table = record { m_map = (5, record { ip = []; user_id = []; num = n }) ∷ []; hang_ups = [] };
  checker = sleeping;
}

-- The heartbeat is lost: the store writes over it.
heartbeat_lost : run broken_round (at_num 2) ≡ (ok tt, at_num 3)
unfolding run lookup adjust
heartbeat_lost = refl

-- The next round gives the connection up.
then_dropped : lookup 5 (run (checking ∷ checking ∷ []) (at_num 3)).1.table.m_map ≡ none
unfolding run lookup erase
then_dropped = refl

abbrev day : List (Event ℕ)
day =
    checking
    ∷ checking
    ∷ heart 5
    ∷ checking
    ∷ checking
    ∷ heart 5
    ∷ logged_in 5 []
    ∷ removed 8
    ∷ checking
    ∷ checking
    ∷ []

run-lively_example :
    (i : Info) × (lookup 5
        (run
          (added 5 [] ∷ day)
          (record { table = no_connections; checker = sleeping })).1.table.m_map
      ≡ some i)
unfolding lookup run handle insert adjust
run-lively_example = run-lively 5 [] day no_connections tt refl (
  (omega arith, tt),
  (tt, (tt, (tt, (tt, (tt, (tt, ((λ e. omega (arith, e)), ((omega arith, tt), (tt, tt))))))))),
)

-- One connection that has been silent too long, and a fresh one.
abbrev two : Evaluator ℕ
two = record {
  m_map =
      (5, record { ip = []; user_id = []; num = 3 })
      ∷ (8, record { ip = []; user_id = []; num = 0 })
      ∷ [];
  hang_ups = [];
}
