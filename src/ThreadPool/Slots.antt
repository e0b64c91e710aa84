-- ===== src/ThreadPool/Slots.antt =====
-- How many slots of `worker_threads` hold a thread, and how many a thread at work.
use pick_up_the_light_server.Prelude.{
  ℕ, ◌+◌, ◌≤◌, ◌≡◌, refl, Bool, true, false, not, some, List, [], ◌∷◌, ◌++◌, map, arith, length,
  set, get_elem?, if◌then◌else◌, replicate, suc, zero,
}
use pick_up_the_light_server.ThreadPool.{
  Worker, absent, ready, waiting, woken, working, worked, exited, wake, is_empty,
}

abbrev pub is_working : Worker → Bool
is_working (working t) = true
is_working worked = true
is_working w = false

abbrev pub is_present : Worker → Bool
is_present w = not (is_empty w)

abbrev pub weight : Bool → ℕ
weight true = 1
weight false = 0

abbrev pub count : (Worker → Bool) → List Worker → ℕ
count f [] = 0
count f (w ∷ ws) = weight (f w) + count f ws

module _ (f : Worker → Bool) where
  pub count-set :
      (ws : List Worker) (i : ℕ) (v w : Worker)
      → get_elem? ws i ≡ some v
      → count f (set ws i w) + weight (f v) ≡ count f ws + weight (f w)
  count-set [] i v w h = ground arith
  count-set (x ∷ xs) zero v w h = ground arith
  count-set (x ∷ xs) (suc i) v w h = ground (arith, count-set xs i v w h)

  pub count-append : (xs ys : List Worker) → count f (xs ++ ys) ≡ count f xs + count f ys
  count-append [] ys = omega arith
  count-append (x ∷ xs) ys = ground (arith, count-append xs ys)

  pub count-replicate : (n : ℕ) (w : Worker) → count f (replicate n w) ≡ (if f w then n else 0)
  count-replicate zero w = ground arith
  count-replicate (suc n) w = ground (arith, count-replicate n w)

  pub count-wake :
      ((w : Worker) → f (wake w) ≡ f w) → (ws : List Worker) → count f (map wake ws) ≡ count f ws
  count-wake h [] = refl
  count-wake h (w ∷ ws) = ground (arith, h w, count-wake h ws)

pub wake-present : (w : Worker) → is_present (wake w) ≡ is_present w
wake-present absent = refl
wake-present ready = refl
wake-present waiting = refl
wake-present woken = refl
wake-present (working t) = refl
wake-present worked = refl
wake-present exited = refl

pub wake-working : (w : Worker) → is_working (wake w) ≡ is_working w
wake-working absent = refl
wake-working ready = refl
wake-working waiting = refl
wake-working woken = refl
wake-working (working t) = refl
wake-working worked = refl
wake-working exited = refl

pub count_le-length : (ws : List Worker) → count is_present ws ≤ length ws
count_le-length [] = omega arith
count_le-length (w ∷ ws) = ground (arith, count_le-length ws)
