-- ===== src/Table.antt =====
-- `std::unordered_map`: an association list over a key with a decided equality. `insert` keeps an
-- old entry, `at` fails on a missing key, and the order of the entries is left to the list.
pub mod Laws
use pick_up_the_light_server.Prelude.{
  ◌≡◌, ◌↔◌, Bool, Option, none, some, List, [], ◌∷◌, ==_iff as nat_iff, ◌==◌ as nat_beq,
  if◌then◌else◌, ℕ, true,
}
use pick_up_the_light_server.Text.{Bytes, ◌==◌ as bytes_eq, ==_iff as bytes_iff}

-- A type of keys, with the test that the hash table makes on two of them.
pub record Key {ℓ} (K : Type ℓ) : Type ℓ where
  pub same : K → K → Bool
  pub same_iff : (j k : K) → (same j k ≡ true) ↔ (j ≡ k)

instance abbrev pub bytes_key : Key Bytes
bytes_key = record { same_iff = bytes_iff; same = bytes_eq }

instance abbrev pub number_key : Key ℕ
number_key = record { same_iff = nat_iff; same = nat_beq }

infix 50 ◌==◌
abbrev pub ◌==◌ {ℓ} : {K : Type ℓ} ⦃key : Key K⦄ → K → K → Bool
◌==◌ ⦃key = key⦄ j k = key.same j k

abbrev pub Table {ℓ κ} : Type ℓ → Type κ → Type (ℓ ⊔ κ)
Table K V = List (K × V)

module _ {ℓ κ} {K : Type ℓ} {V : Type κ} ⦃e : Key K⦄ where
  unfoldable pub lookup : K → Table K V → Option V
  lookup k [] = none
  lookup k ((j, v) ∷ m) = if j == k then some v else lookup k m

  -- `m.insert({k, v})`: nothing happens if the key is there.
  unfoldable pub insert : K → V → Table K V → Table K V
  unfolding lookup
  insert k v m = elim (lookup k m) [ none ↦ (k, v) ∷ m | some w ↦ m ]

  -- `m.erase(k)`
  unfoldable pub erase : K → Table K V → Table K V
  erase k [] = []
  erase k ((j, v) ∷ m) = let rest = erase k m in if j == k then rest else (j, v) ∷ rest

  -- An assignment to a part of `m.at(k)`, where the key is there.
  unfoldable pub adjust : K → (V → V) → Table K V → Table K V
  adjust k f [] = []
  adjust k f ((j, v) ∷ m) = if j == k then (j, f v) ∷ m else (j, v) ∷ adjust k f m
