-- ===== src/Evaluator/Liveness.antt =====
-- How long a silent connection lives, where no other call comes into its checks.
use pick_up_the_light_server.Prelude.{
  ℕ, zero, suc, ◌+◌, ◌≤◌, ◌≡◌, none, some, arith, leb, ◌==◌ as nat_beq, if◌then◌else◌, inl, inr,
  Bool-cases,
}
use pick_up_the_light_server.Table.{Key, lookup}
use pick_up_the_light_server.Table.Laws.{NodupKeys}
use pick_up_the_light_server.Evaluator.{Info, Evaluator, check}
use pick_up_the_light_server.Evaluator.Checks.{check_lem, check-NodupKeys}

module _ {ℓ} {K : Type ℓ} ⦃e : Key K⦄ where
  -- `n` checks with nothing between them.
  unfoldable pub checks : ℕ → Evaluator K → Evaluator K
  unfolding check
  checks zero s = s
  checks (suc n) s = checks n (check s).1

  checks-none :
      (n : ℕ) (k : K) (s : Evaluator K)
      → NodupKeys s.m_map
      → lookup k s.m_map ≡ none
      → lookup k (checks n s).m_map ≡ none
  unfolding checks
  checks-none zero k s u h = h
  checks-none (suc n) k s u h =
      checks-none n k (check s).1 (check-NodupKeys s u) (ground (arith, h, (check_lem s u).1 k))

  -- A connection that stays silent while its counter is at `num` is counted up check by check as
  -- long as the count does not pass 3, and is gone from the table after that: a fresh connection
  -- outlives three checks, and the fourth drops it.
  pub lookup-checks :
      (n : ℕ) (k : K) (info : Info) (s : Evaluator K)
      → NodupKeys s.m_map
      → lookup k s.m_map ≡ some info
      → info.num ≤ 3
      → lookup k (checks n s).m_map
        ≡ (if leb (info.num + n) 3 then some (record info { num = info.num + n }) else none)
  unfolding checks
  lookup-checks zero k info s u h small = ground arith
  lookup-checks (suc n) k info s u h small =
      let next = (check_lem s u).1 k in
      elim (Bool-cases (nat_beq info.num 3)) [
        | inl last ↦ ground (
          arith,
          checks-none n k (check s).1 (check-NodupKeys s u) (ground (arith, next, h, last)),
        )
        | inr more ↦
            let sum : info.num + 1 + n ≡ info.num + suc n = omega arith in
            let older = record info { num = info.num + 1 } in
            rw sum at (
              lookup-checks n k older (check s).1 (check-NodupKeys s u)
                (ground (arith, next, h, more)) (ground arith))
      ]
