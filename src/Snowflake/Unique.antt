-- ===== src/Snowflake/Unique.antt =====
-- A history of calls of `nextId` by any threads, in the order in which they hold the mutex.
use pick_up_the_light_server.Prelude.{ℕ, zero, suc, ◌<◌, ◌≡◌, refl, ◌∙◌, List, [], ◌∷◌, arith}
use pick_up_the_light_server.Outcome.{Outcome, ok, throws, undefined, waiting}
use pick_up_the_light_server.Snowflake.{IdWorker, next_id}
use pick_up_the_light_server.Snowflake.Compose.{IsInEra, IsConfigured, layout, compose-eq-layout}
use pick_up_the_light_server.Snowflake.Calls.{StaysInEra, Issued, next_id-Issued}
use pick_up_the_light_server.Snowflake.Ends.{next_id_throws}

-- A call that throws hands out no id, and the callers after it go on; one that waits for good holds
-- the mutex, and nobody goes on.
hand_out : Outcome ℕ → List ℕ → List ℕ
hand_out (ok id) rest = id ∷ rest
hand_out (throws e) rest = rest
hand_out undefined rest = []
hand_out waiting rest = []

-- The ids that `n` calls hand out.
unfoldable pub issue : (ℕ → ℕ) → ℕ → ℕ → IdWorker → List ℕ
unfolding hand_out
issue reading rounds zero w = []
issue reading rounds (suc n) w =
    let (r, w') = next_id reading rounds w in hand_out r (issue reading rounds n w')

-- Strictly increasing, from a number on, and as a whole.
abbrev pub Above : ℕ → List ℕ → Type 0
Above m [] = Unit {0}
Above m (x ∷ xs) = (m < x) × Above x xs

abbrev pub IsIncreasing : List ℕ → Type 0
IsIncreasing [] = Unit {0}
IsIncreasing (x ∷ xs) = Above x xs

Issued-IsConfigured : {w w' : IdWorker} {id : ℕ} → IsConfigured w → Issued w w' id → IsConfigured w'
Issued-IsConfigured c i = record {
  worker = rw i.worker c.worker;
  datacenter = rw i.datacenter c.datacenter;
  sequenced = i.sequenced;
}

Issued-layout :
    {w w' : IdWorker} {id : ℕ} → IsConfigured w → Issued w w' id → id ≡ layout w'.last_timestamp w'
Issued-layout {w' = w'} c i =
    i.composed ∙ compose-eq-layout w'.last_timestamp w' (Issued-IsConfigured c i) i.in_era

-- After an id, or from any time of the era, the next id is above the number of the state.
layout-lt-Issued :
    {w w' : IdWorker} {id : ℕ}
    → IsConfigured w
    → IsInEra w.last_timestamp
    → Issued w w' id
    → layout w.last_timestamp w < id
layout-lt-Issued c e i = omega (arith, Issued-layout c i, i)

module _ (reading : ℕ → ℕ) (era : StaysInEra reading) (rounds : ℕ) where
  hand_out-Above :
      (r : Outcome ℕ) (w w' : IdWorker) (rest : List ℕ)
      → IsConfigured w
      → IsInEra w.last_timestamp
      → next_id reading rounds w ≡ (r, w')
      → (IsConfigured w' → IsInEra w'.last_timestamp → Above (layout w'.last_timestamp w') rest)
      → Above (layout w.last_timestamp w) (hand_out r rest)
  unfolding hand_out
  hand_out-Above (ok id) w w' rest c e h above =
      let i = next_id-Issued reading era rounds w w' c h in
      (layout-lt-Issued c e i, rw (Issued-layout c i) (above (Issued-IsConfigured c i) i.in_era))
  hand_out-Above (throws x) w w' rest c e h above =
      let kept = next_id_throws reading rounds w w' h in
      rw kept at (above (rw kept (omega arith)) (rw kept e))
  hand_out-Above undefined w w' rest c e h above = tt
  hand_out-Above waiting w w' rest c e h above = tt

  issue-Above :
      (n : ℕ) (w : IdWorker)
      → IsConfigured w
      → IsInEra w.last_timestamp
      → Above (layout w.last_timestamp w) (issue reading rounds n w)
  unfolding issue
  issue-Above zero w c e = tt
  issue-Above (suc n) w c e =
      let (r, w') = next_id reading rounds w in
      hand_out-Above r w w' (issue reading rounds n w') c e refl (issue-Above n w')

  hand_out-IsIncreasing :
      (r : Outcome ℕ) (w w' : IdWorker) (n : ℕ)
      → IsConfigured w
      → next_id reading rounds w ≡ (r, w')
      → (IsConfigured w' → IsIncreasing (issue reading rounds n w'))
      → IsIncreasing (hand_out r (issue reading rounds n w'))
  unfolding hand_out
  hand_out-IsIncreasing (ok id) w w' n c h later =
      let i = next_id-Issued reading era rounds w w' c h in
      rw (Issued-layout c i) (issue-Above n w' (Issued-IsConfigured c i) i.in_era)
  hand_out-IsIncreasing (throws x) w w' n c h later =
      later (rw (next_id_throws reading rounds w w' h) (omega arith))
  hand_out-IsIncreasing undefined w w' n c h later = tt
  hand_out-IsIncreasing waiting w w' n c h later = tt

  -- However many calls of `nextId` are made, and whatever the clock reads within the era, also when
  -- it goes back or stands still: the ids that the calls on a configured generator hand out are
  -- strictly increasing, so no two are the same.
  pub issue-IsIncreasing :
      (n : ℕ) (w : IdWorker) → IsConfigured w → IsIncreasing (issue reading rounds n w)
  unfolding issue
  issue-IsIncreasing zero w c = tt
  issue-IsIncreasing (suc n) w c =
      let (r, w') = next_id reading rounds w in
      hand_out-IsIncreasing r w w' n c refl (issue-IsIncreasing n w')
