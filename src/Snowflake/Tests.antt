-- ===== src/Snowflake/Tests.antt =====
-- Runs of the id generator, and its theorems at concrete data.
use pick_up_the_light_server.Prelude.{ℕ, ◌+◌, ◌*◌, ◌/◌, ◌%◌, ◌^◌, ◌<◌, ◌≡◌, refl, [], ◌∷◌, arith}
use pick_up_the_light_server.Outcome.{ok, waiting}
use pick_up_the_light_server.Snowflake.{
  IdWorker, twepoch, max_worker_id, sequence_mask, new_id_worker, compose, next_id, get_id,
}
use pick_up_the_light_server.Snowflake.Compose.{IsConfigured, Fields, compose-Fields}
use pick_up_the_light_server.Snowflake.Calls.{StaysInEra}
use pick_up_the_light_server.Snowflake.Ends.{next_id-ends}
use pick_up_the_light_server.Snowflake.Unique.{issue, IsIncreasing, issue-IsIncreasing}

masks : (max_worker_id ≡ 31) × (sequence_mask ≡ 4095)
masks = (refl, refl)

-- Three readings to the millisecond, and back to the start after a second.
abbrev clock : ℕ → ℕ
clock k = twepoch + 1 + k / 3 % 1000

clock-StaysInEra : StaysInEra clock
clock-StaysInEra k = omega arith

abbrev generator : IdWorker
generator = record new_id_worker { worker_id = 5; datacenter_id = 12 }

generator-IsConfigured : IsConfigured generator
generator-IsConfigured = omega arith

-- The generator in its last sequence number of the first millisecond.
abbrev exhausted : IdWorker
exhausted = record generator { sequence = 4095; last_timestamp = twepoch + 1 }

first_ids :
    issue clock 9 4 generator
    ≡ (1 * 2 ^ 22 + 12 * 2 ^ 17 + 5 * 2 ^ 12)
      ∷ (1 * 2 ^ 22 + 12 * 2 ^ 17 + 5 * 2 ^ 12 + 1)
      ∷ (1 * 2 ^ 22 + 12 * 2 ^ 17 + 5 * 2 ^ 12 + 2)
      ∷ (2 * 2 ^ 22 + 12 * 2 ^ 17 + 5 * 2 ^ 12)
      ∷ []
unfolding issue next_id
first_ids = refl

-- The wrapped sequence waits for the next millisecond; with no round left it is still waiting.
wrapped :
    ((get_id clock 9 exhausted).0 ≡ ok (2 * 2 ^ 22 + 12 * 2 ^ 17 + 5 * 2 ^ 12))
    × ((get_id clock 1 exhausted).0 ≡ waiting)
unfolding get_id
wrapped = (refl, refl)

compose-Fields_example :
    (compose (twepoch + 7) exhausted < 2 ^ 64)
    × Fields (compose (twepoch + 7) exhausted) (twepoch + 7) exhausted
compose-Fields_example = compose-Fields (twepoch + 7) exhausted (omega arith) (omega arith)

next_id-ends_example : (id : ℕ) × (v : IdWorker) × (next_id clock 9 exhausted ≡ (ok id, v))
next_id-ends_example =
    next_id-ends clock clock-StaysInEra 9 4 (omega arith) exhausted (omega arith) (omega arith)

issue-IsIncreasing_example : IsIncreasing (issue clock 9 5000 generator)
issue-IsIncreasing_example =
    issue-IsIncreasing clock clock-StaysInEra 9 5000 generator generator-IsConfigured
