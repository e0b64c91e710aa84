-- ===== src/Evaluator/Overlap/Alone.antt =====
-- A round of the check beside which no other method runs.
use pick_up_the_light_server.Prelude.{ℕ, List, [], ◌∷◌, replicate}
use pick_up_the_light_server.Table.{Key, Table}
use pick_up_the_light_server.Evaluator.{HangUp, epoll_delete, close, Evaluator}
use pick_up_the_light_server.Evaluator.Overlap.{Event, checking}

module _ {ℓ} {K : Type ℓ} ⦃e : Key K⦄ where
  -- The accesses of the check, with no call in between.
  abbrev pub accesses : ℕ → List (Event K)
  accesses n = replicate n checking

  abbrev hang_up : K → List (HangUp K)
  hang_up fd = epoll_delete fd ∷ close fd ∷ []
