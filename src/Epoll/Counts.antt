-- ===== src/Epoll/Counts.antt =====
-- How often a descriptor stands in a list, or among the keys of a table.
use pick_up_the_light_server.Prelude.{
  ℕ, ◌+◌, ◌≤◌, ◌≡◌, refl, true, false, ◌==◌, Option, none, some, List, [], ◌∷◌, ◌++◌, arith,
  if◌then◌else◌,
}
use pick_up_the_light_server.Table.{number_key, insert, erase, lookup, Table}
use pick_up_the_light_server.Table.Laws.{keys}
use pick_up_the_light_server.Epoll.{is_watched, watch, unwatch}
use pick_up_the_light_server.ThreadPool.Slots.{weight}

abbrev pub times : ℕ → List ℕ → ℕ
times fd [] = 0
times fd (x ∷ xs) = weight (x == fd) + times fd xs

pub times-append : (fd : ℕ) (xs ys : List ℕ) → times fd (xs ++ ys) ≡ times fd xs + times fd ys
times-append fd [] ys = omega arith
times-append fd (x ∷ xs) ys = omega (arith, times-append fd xs ys)

is_watched-times : (fd : ℕ) (xs : List ℕ) → is_watched fd xs ≡ false → times fd xs ≡ 0
is_watched-times fd [] h = refl
is_watched-times fd (x ∷ xs) h = ground (arith, is_watched-times fd xs)

is_watched-pos : (fd : ℕ) (xs : List ℕ) → is_watched fd xs ≡ true → 1 ≤ times fd xs
is_watched-pos fd [] h = ground arith
is_watched-pos fd (x ∷ xs) h = ground (arith, is_watched-pos fd xs)

pub times-watch :
    (fd k : ℕ) (xs : List ℕ)
    → times k (watch fd xs)
      ≡ (if fd == k then (if times k xs == 0 then 1 else times k xs) else times k xs)
times-watch fd k xs = ground (arith, is_watched-times fd xs, is_watched-pos fd xs)

pub times-unwatch :
    (fd k : ℕ) (xs : List ℕ) → times k (unwatch fd xs) ≡ (if fd == k then 0 else times k xs)
times-unwatch fd k [] = ground arith
times-unwatch fd k (x ∷ xs) = ground (arith, times-unwatch fd k xs)

pub keys-erase : {V : Type 0} (fd : ℕ) (m : Table ℕ V) → keys (erase fd m) ≡ unwatch fd (keys m)
unfolding erase
keys-erase fd [] = refl
keys-erase fd ((j, v) ∷ m) = ground (arith, keys-erase fd m)

module _ {V : Type 0} where
  pub times-erase :
      (fd k : ℕ) (m : Table ℕ V)
      → times k (keys (erase fd m)) ≡ (if fd == k then 0 else times k (keys m))
  unfolding erase
  times-erase fd k [] = ground arith
  times-erase fd k ((j, v) ∷ m) = ground (arith, times-erase fd k m)

  lookup-times : (fd : ℕ) (m : Table ℕ V) → lookup fd m ≡ none → times fd (keys m) ≡ 0
  unfolding lookup
  lookup-times fd [] h = refl
  lookup-times fd ((j, v) ∷ m) h = ground (arith, lookup-times fd m)

  pub lookup-pos : (fd : ℕ) (v : V) (m : Table ℕ V) → lookup fd m ≡ some v → 1 ≤ times fd (keys m)
  unfolding lookup
  lookup-pos fd v [] h = ground arith
  lookup-pos fd v ((j, u) ∷ m) h = ground (arith, lookup-pos fd v m)

  pub times-insert :
      (fd k : ℕ) (v : V) (m : Table ℕ V)
      → times k (keys (insert fd v m)) ≡ (
          if fd == k
          then (if times k (keys m) == 0 then 1 else times k (keys m))
          else times k (keys m))
  unfolding insert
  times-insert fd k v m = insert_case (lookup fd m) refl
    where
      insert_case :
          (entry : Option V)
          → lookup fd m ≡ entry
          → times k (keys (insert fd v m)) ≡ (
              if fd == k
              then (if times k (keys m) == 0 then 1 else times k (keys m))
              else times k (keys m))
      insert_case none e = ground (arith, e, lookup-times fd m)
      insert_case (some u) e = ground (arith, e, lookup-pos fd u m e)
