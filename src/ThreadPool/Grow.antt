-- ===== src/ThreadPool/Grow.antt =====
-- The manager starts threads.
use Prim.Native.Nat.{min}
use pick_up_the_light_server.Prelude.{
  ℕ, ◌+◌, ◌-◌, ◌≡◌, refl, true, false, List, [], ◌∷◌, arith, length,
}
use pick_up_the_light_server.Protocol.{change_thread_number}
use pick_up_the_light_server.ThreadPool.{
  Worker, absent, ready, waiting, woken, working, worked, exited, is_empty, grow,
}
use pick_up_the_light_server.ThreadPool.Slots.{count, is_working, is_present, count_le-length}

-- What the loop does to the slots, and to the number of live threads.
pub record Grown (max_num started live : ℕ) (ws : List Worker) (ws' : List Worker) (live' : ℕ)
    : Type 0 where
  pub slots : length ws' ≡ length ws
  pub present : count is_present ws' + live ≡ count is_present ws + live'
  pub at_work : count is_working ws' ≡ count is_working ws
  pub number :
      live'
      ≡ live
        + min
            (change_thread_number - started)
            (min (max_num - live) (length ws - count is_present ws))

empty-idle : (w : Worker) → is_empty w ≡ true → is_working w ≡ false
empty-idle absent h = refl
empty-idle ready h = ground arith
empty-idle waiting h = ground arith
empty-idle woken h = ground arith
empty-idle (working t) h = ground arith
empty-idle worked h = ground arith
empty-idle exited h = ground arith

pub grow-Grown :
    (max_num started live : ℕ) (ws : List Worker)
    → Grown max_num started live ws
        (grow max_num started live ws).0
        (grow max_num started live ws).1
unfolding grow
grow-Grown m c l [] = record { slots = refl; present = refl; at_work = refl; number = omega arith }
grow-Grown m c l (w ∷ ws) =
    let after = grow-Grown m (c + 1) (l + 1) ws in
    let same = grow-Grown m c l ws in
    record {
      slots = ground (arith, after.slots, same.slots);
      present = ground (arith, after.present, same.present);
      at_work = ground (arith, after.at_work, same.at_work, empty-idle w);
      number = ground (arith, after.number, same.number, count_le-length ws);
    }
