-- ===== src/ThreadPool/Manage.antt =====
-- The rounds of the manager thread.
use Prim.Native.Nat.{min}
use pick_up_the_light_server.Prelude.{◌+◌, ◌-◌, ◌*◌, ◌≡◌, ◌<◌, arith, length, ltb, ◌&&◌}
use pick_up_the_light_server.Protocol.{change_thread_number}
use pick_up_the_light_server.ThreadPool.{Pool, start_threads, stop_threads, manage}
use pick_up_the_light_server.ThreadPool.Slots.{count, is_present}
use pick_up_the_light_server.ThreadPool.Grow.{grow-Grown}
use pick_up_the_light_server.ThreadPool.Consistent.{
  IsConsistent, live_le-max, either, notify_all-IsConsistent,
}

start_threads-IsConsistent : (p : Pool) → IsConsistent p → IsConsistent (start_threads p)
unfolding start_threads
start_threads-IsConsistent p c =
    let g = grow-Grown p.max_num 0 p.live_num p.workers in
    record {
      slots = ground (arith, c.slots, g.slots);
      live = ground (arith, c.live, g.present);
      busy = ground (arith, c.busy, g.at_work);
      enough = ground (arith, c.enough, g.number);
      few_go = ground (arith, c.few_go);
    }

stop_threads-IsConsistent : (p : Pool) → IsConsistent p → IsConsistent (stop_threads p)
unfolding stop_threads
stop_threads-IsConsistent p c =
    let more : Pool = record p { destroy_num = change_thread_number } in
    either (ltb (p.busy_num * 2) p.live_num && ltb p.min_num p.live_num)
      (notify_all-IsConsistent more (record {
        slots = c.slots;
        live = c.live;
        busy = c.busy;
        enough = c.enough;
        few_go = omega arith;
      }))
      c

pub manage-IsConsistent : (p : Pool) → IsConsistent p → IsConsistent (manage p)
unfolding manage
manage-IsConsistent p c =
    either p.shutdown c
      (stop_threads-IsConsistent (start_threads p) (start_threads-IsConsistent p c))

-- Where more tasks wait than threads live, a round of the manager starts two threads, or as many
-- as there are cores left, and finds a slot for each.
pub start_threads-live_num :
    (p : Pool)
    → IsConsistent p
    → p.live_num < length p.task_q
    → ((start_threads p).live_num ≡ p.live_num + min change_thread_number (p.max_num - p.live_num))
      × (count is_present (start_threads p).workers ≡ (start_threads p).live_num)
unfolding start_threads
start_threads-live_num p c h =
    let g = grow-Grown p.max_num 0 p.live_num p.workers in
    (
      ground (arith, h, g.number, c.slots, c.live, live_le-max p c),
      ground (arith, c.live, g.present),
    )
