-- ===== src/ThreadPool/Consistent.antt =====
-- The counters of the pool against its threads.
use pick_up_the_light_server.Prelude.{
  ℕ, ◌-◌, ◌≤◌, ◌≡◌, Bool, true, false, replicate, arith, length, if◌then◌else◌, length-map,
  length-append, length-replicate,
}
use pick_up_the_light_server.Outcome.{ok}
use pick_up_the_light_server.Protocol.{change_thread_number}
use pick_up_the_light_server.ThreadPool.{absent, ready, wake, Pool, notify_all, new_pool}
use pick_up_the_light_server.ThreadPool.Slots.{
  count, is_working, is_present, count-append, count-replicate, count-wake, wake-present,
  wake-working, count_le-length,
}

pub record IsConsistent (p : Pool) : Type 0 where
  pub slots : length p.workers ≡ p.max_num
  pub live : count is_present p.workers ≡ p.live_num
  pub busy : count is_working p.workers ≡ p.busy_num
  pub enough : p.min_num ≤ p.live_num
  pub few_go : p.destroy_num ≤ change_thread_number

-- The live threads are never more than the machine's cores.
pub live_le-max : (p : Pool) → IsConsistent p → p.live_num ≤ p.max_num
live_le-max p c = omega (arith, c.slots, c.live, count_le-length p.workers)

pub new_pool-IsConsistent : (cores : ℕ) (p : Pool) → new_pool cores ≡ ok p → IsConsistent p
unfolding new_pool
new_pool-IsConsistent cores p h = record {
  slots = ground (
    arith,
    h,
    length-append (replicate 3 ready) (replicate (cores - 3) absent),
    length-replicate (cores - 3) absent,
  );
  live = ground (
    arith,
    h,
    count-append is_present (replicate 3 ready) (replicate (cores - 3) absent),
    count-replicate is_present (cores - 3) absent,
  );
  busy = ground (
    arith,
    h,
    count-append is_working (replicate 3 ready) (replicate (cores - 3) absent),
    count-replicate is_working (cores - 3) absent,
  );
  enough = ground (arith, h);
  few_go = ground (arith, h);
}

pub either :
    (b : Bool) {p q : Pool} → IsConsistent p → IsConsistent q → IsConsistent (if b then p else q)
either true c d = c
either false c d = d

pub notify_all-IsConsistent : (p : Pool) → IsConsistent p → IsConsistent (notify_all p)
notify_all-IsConsistent p c = record {
  slots = omega (arith, c.slots, length-map p.workers wake);
  live = omega (arith, c.live, count-wake is_present wake-present p.workers);
  busy = omega (arith, c.busy, count-wake is_working wake-working p.workers);
  enough = c.enough;
  few_go = c.few_go;
}
