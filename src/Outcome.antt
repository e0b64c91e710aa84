-- ===== src/Outcome.antt =====
-- How a C++ call ends, and methods that change an object: what a method wrote before it threw
-- stays written, so the state comes back beside every outcome.
use pick_up_the_light_server.Prelude.{◌≡◌, refl, arith}

-- The exceptions that the code lets escape.
pub data Exception : Type 0 where
  runtime_error : Exception  -- `SnowflakeIdWorker::nextId`, the clock went back
  out_of_range : Exception  -- `unordered_map::at`
  parse_error : Exception  -- `json::parse`
  type_error : Exception  -- a `json` value of another type than the one asked for
  bad_index : Exception  -- a row of a query's result that is too short (`mysqlpp::BadIndex`)
  bad_conversion : Exception  -- `mysqlpp::BadConversion`
  system_error : Exception  -- `boost::asio::read` and `write`

-- `undefined` is a call without defined behaviour, such as a write past the end of a buffer;
-- `waiting` a loop that has not ended within the number of rounds that the model follows.
pub data Outcome {ℓ} (A : Type ℓ) : Type ℓ where
  ok : A → Outcome A
  throws : Exception → Outcome A
  undefined : Outcome A
  waiting : Outcome A

abbrev pub Exec {ℓ} : Type ℓ → Type ℓ → Type ℓ
Exec S A = S → Outcome A × S

module _ {ℓ} {S A : Type ℓ} where
  abbrev pub pure : A → Exec S A
  pure a s = (ok a, s)

  abbrev pub throw : Exception → Exec S A
  throw e s = (throws e, s)

  abbrev pub lift : Outcome A → Exec S A
  lift r s = (r, s)

  abbrev pub gets : (S → A) → Exec S A
  gets f s = (ok (f s), s)

module _ {ℓ} {S A B : Type ℓ} where
  abbrev pub continue : Outcome A → (A → Exec S B) → Exec S B
  continue (ok a) f s = f a s
  continue (throws e) f s = (throws e, s)
  continue undefined f s = (undefined, s)
  continue waiting f s = (waiting, s)

  infixl 10 ◌>>=◌ ◌>>◌
  abbrev pub ◌>>=◌ : Exec S A → (A → Exec S B) → Exec S B
  ◌>>=◌ m f s = let (r, s') = m s in continue r f s'

  abbrev pub ◌>>◌ : Exec S A → Exec S B → Exec S B
  m >> n = m >>= λ _. n

abbrev pub modify {ℓ} : {S : Type ℓ} → (S → S) → Exec S (Unit {ℓ})
modify f s = (ok tt, f s)

-- A call that returns fixes its value and the state that it leaves.
module _ {ℓ} {S A : Type ℓ} {a b : A} {s t : S} where
  pub returned : ◌≡◌ {A = Outcome A × S} (ok a, s) (ok b, t) → (a ≡ b) × (s ≡ t)
  returned h = ground arith

-- A sequence of two steps that returns: the first one returned, and the second from its state.
module _ {ℓ} {S A B : Type ℓ} {b : B} {t : S} where
  continue-returned :
      (r : Outcome A) (f : A → Exec S B) (s : S)
      → continue r f s ≡ (ok b, t)
      → (a : A) × (r ≡ ok a) × (f a s ≡ (ok b, t))
  continue-returned (ok a) f s h = (a, refl, h)
  continue-returned (throws e) f s h = ground arith
  continue-returned undefined f s h = ground arith
  continue-returned waiting f s h = ground arith

  pub bind-returned :
      (m : Exec S A) (f : A → Exec S B) (s : S)
      → (m >>= f) s ≡ (ok b, t)
      → (a : A) × (s' : S) × (m s ≡ (ok a, s')) × (f a s' ≡ (ok b, t))
  bind-returned m f s h =
      let (a, first, second) = continue-returned (m s).0 f (m s).1 h in
      (a, (m s).1, λ i. (first i, (m s).1), second)
