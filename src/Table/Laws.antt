-- ===== src/Table/Laws.antt =====
-- The laws of the map, as equations for `lookup`.
use pick_up_the_light_server.Prelude.{◌≡◌, none, some, List, [], ◌∷◌, arith, if◌then◌else◌}
use mathlib.Core.Option
use pick_up_the_light_server.Table.{Key, ◌==◌, Table, lookup, insert, erase, adjust}

module _ {ℓ κ} {K : Type ℓ} {V : Type κ} ⦃e : Key K⦄ where
  pub lookup-insert :
      (k j : K) (v : V) (m : Table K V)
      → lookup j (insert k v m)
        ≡ (if k == j then elim (lookup k m) [ none ↦ some v | some w ↦ some w ] else lookup j m)
  unfolding lookup insert
  lookup-insert k j v m = ground (arith, e.same_iff k j)

  pub lookup-erase :
      (k j : K) (m : Table K V) → lookup j (erase k m) ≡ (if k == j then none else lookup j m)
  unfolding lookup erase
  lookup-erase k j [] = ground arith
  lookup-erase k j ((i, v) ∷ m) =
      ground (arith, lookup-erase k j m, e.same_iff k j, e.same_iff i k, e.same_iff i j)

  pub lookup-adjust :
      (k j : K) (f : V → V) (m : Table K V)
      → lookup j (adjust k f m) ≡ (if k == j then Option.map f (lookup j m) else lookup j m)
  unfolding lookup adjust
  lookup-adjust k j f [] = ground arith
  lookup-adjust k j f ((i, v) ∷ m) =
      ground (arith, lookup-adjust k j f m, e.same_iff k j, e.same_iff i k, e.same_iff i j)

  -- No key has two entries.
  abbrev pub NodupKeys : Table K V → Type κ
  NodupKeys [] = Unit
  NodupKeys ((k, v) ∷ m) = (lookup k m ≡ none) × NodupKeys m

  pub insert-NodupKeys : (k : K) (v : V) (m : Table K V) → NodupKeys m → NodupKeys (insert k v m)
  unfolding insert
  insert-NodupKeys k v m u = ground arith

  pub erase-NodupKeys : (k : K) (m : Table K V) → NodupKeys m → NodupKeys (erase k m)
  unfolding erase
  erase-NodupKeys k [] u = tt
  erase-NodupKeys k ((j, v) ∷ m) (fresh, u) =
      ground (arith, erase-NodupKeys k m u, lookup-erase k j m, e.same_iff k j)

  pub adjust-NodupKeys :
      (k : K) (f : V → V) (m : Table K V) → NodupKeys m → NodupKeys (adjust k f m)
  unfolding adjust
  adjust-NodupKeys k f [] u = tt
  adjust-NodupKeys k f ((j, v) ∷ m) (fresh, u) =
      ground (arith, adjust-NodupKeys k f m u, lookup-adjust k j f m, e.same_iff k j)

  abbrev pub keys : Table K V → List K
  keys [] = []
  keys ((k, v) ∷ m) = k ∷ keys m

  pub keys-adjust : (k : K) (f : V → V) (m : Table K V) → keys (adjust k f m) ≡ keys m
  unfolding adjust
  keys-adjust k f [] = ground arith
  keys-adjust k f ((j, v) ∷ m) = ground (arith, keys-adjust k f m)
