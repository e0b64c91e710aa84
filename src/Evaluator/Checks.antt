-- ===== src/Evaluator/Checks.antt =====
-- One check round, key by key.
use pick_up_the_light_server.Prelude.{
  ◌+◌, ◌≡◌, refl, Option, none, some, List, [], ◌∷◌, ◌++◌, arith, ltb, append_assoc, append-nil,
  ◌==◌ as nat_beq, if◌then◌else◌,
}
use pick_up_the_light_server.Outcome.{Outcome, ok, continue}
use pick_up_the_light_server.Table.{Key, ◌==◌, Table, lookup}
use pick_up_the_light_server.Table.Laws.{
  lookup-erase, lookup-adjust, NodupKeys, erase-NodupKeys, adjust-NodupKeys,
}
use pick_up_the_light_server.Evaluator.{
  Info, HangUp, epoll_delete, close, Evaluator, check_entry, check_all, check, check_boost,
}

-- The entry of a connection after one check.
abbrev pub aged : Option Info → Option Info
aged none = none
aged (some info) =
    if nat_beq info.num 3
    then none
    else (if ltb info.num 3 then some (record info { num = info.num + 1 }) else some info)

-- What a check does about the connections that it gives up, in the order of the table.
abbrev pub given_up {ℓ} : {K : Type ℓ} → (K → List (HangUp K)) → Table K Info → List (HangUp K)
given_up hang_up [] = []
given_up hang_up ((fd, info) ∷ copy) =
    (if nat_beq info.num 3 then hang_up fd else []) ++ given_up hang_up copy

module _ {ℓ} {K : Type ℓ} ⦃e : Key K⦄ (hang_up : K → List (HangUp K)) where
  -- One entry, where the table still has it as the copy does.
  check_entry-lookup :
      (fd : K) (info : Info) (s : Evaluator K)
      → lookup fd s.m_map ≡ some info
      → ((check_entry hang_up fd info s).0 ≡ ok tt)
        × ((k : K)
            → lookup k (check_entry hang_up fd info s).1.m_map
              ≡ (if fd == k then aged (some info) else lookup k s.m_map))
        × ((check_entry hang_up fd info s).1.hang_ups
            ≡ s.hang_ups ++ (if nat_beq info.num 3 then hang_up fd else []))
  unfolding check_entry
  check_entry-lookup fd info s h = (
    ground arith,
    λ k. ground (
      arith,
      lookup-erase fd k s.m_map,
      lookup-adjust fd k (λ (i : Info). record i { num = i.num + 1 }) s.m_map,
      e.same_iff fd k,
    ),
    ground (arith, append-nil s.hang_ups),
  )

  check_entry-NodupKeys :
      (fd : K) (info : Info) (s : Evaluator K)
      → NodupKeys s.m_map
      → NodupKeys (check_entry hang_up fd info s).1.m_map
  unfolding check_entry
  check_entry-NodupKeys fd info s u = ground (
    arith,
    erase-NodupKeys fd s.m_map u,
    adjust-NodupKeys fd (λ (i : Info). record i { num = i.num + 1 }) s.m_map u,
  )

  -- The copy, or what is left of it, agrees with the table.
  abbrev Agrees : Table K Info → Evaluator K → Type ℓ
  Agrees copy s = (k : K) (i : Info) → lookup k copy ≡ some i → lookup k s.m_map ≡ some i

  -- What the loop over a copy makes of the table and of the list of hang-ups.
  record Checked (copy : Table K Info) (s t : Evaluator K) : Type ℓ where
    pub entries :
        (k : K)
        → lookup k t.m_map
          ≡ elim (lookup k copy) [ none ↦ lookup k s.m_map | some i ↦ aged (some i) ]
    pub hung_up : t.hang_ups ≡ s.hang_ups ++ given_up hang_up copy

  check_all-Checked :
      (copy : Table K Info) (s : Evaluator K)
      → NodupKeys copy
      → Agrees copy s
      → ((check_all hang_up copy s).0 ≡ ok tt) × Checked copy s (check_all hang_up copy s).1
  unfolding check_all lookup
  check_all-Checked [] s u agrees = (refl, record { entries = λ k. refl; hung_up = rw append-nil })
  check_all-Checked ((fd, info) ∷ copy) s (fresh, u) agrees =
      let t = (check_entry hang_up fd info s).1 in
      let (done, entry, hung) =
        check_entry-lookup fd info s (agrees fd info (ground (arith, e.same_iff fd fd))) in
      let agrees' : Agrees copy t =
        λ k i h. ground (arith, entry k, agrees k i, e.same_iff fd k, fresh) in
      let (rest_done, rest) = check_all-Checked copy t u agrees' in
      (
        ground (arith, done, rest_done),
        record {
          entries = λ k. ground (arith, done, entry k, rest.entries k, agrees k, e.same_iff fd k);
          hung_up = ground (
            arith,
            done,
            hung,
            rest.hung_up,
            append_assoc s.hang_ups (if nat_beq info.num 3 then hang_up fd else [])
                (given_up hang_up copy),
          );
        },
      )

  check_all-NodupKeys :
      (copy : Table K Info) (s : Evaluator K)
      → NodupKeys s.m_map
      → NodupKeys (check_all hang_up copy s).1.m_map
  unfolding check_all
  check_all-NodupKeys [] s u = u
  check_all-NodupKeys ((fd, info) ∷ copy) s u =
      let t = (check_entry hang_up fd info s).1 in
      let u' = check_entry-NodupKeys fd info s u in
      continue-NodupKeys copy (check_entry hang_up fd info s).0 t u' (check_all-NodupKeys copy t u')
    where
      continue-NodupKeys :
          (rest : Table K Info) (r : Outcome (Unit {ℓ})) (t : Evaluator K)
          → NodupKeys t.m_map
          → NodupKeys (check_all hang_up rest t).1.m_map
          → NodupKeys (continue r (λ _. check_all hang_up rest) t).1.m_map
      continue-NodupKeys rest (ok a) t u v = v
      continue-NodupKeys rest _ t u v = u

  -- The round over the whole table: the copy is the table itself.
  round-Checked :
      (s : Evaluator K)
      → NodupKeys s.m_map
      → ((check_all hang_up s.m_map s).0 ≡ ok tt)
        × ((k : K) → lookup k (check_all hang_up s.m_map s).1.m_map ≡ aged (lookup k s.m_map))
        × ((check_all hang_up s.m_map s).1.hang_ups ≡ s.hang_ups ++ given_up hang_up s.m_map)
  round-Checked s u =
      let (done, all) = check_all-Checked s.m_map s u (λ k i h. h) in
      (done, λ k. ground (arith, all.entries k), all.hung_up)

module _ {ℓ} {K : Type ℓ} ⦃e : Key K⦄ (s : Evaluator K) (u : NodupKeys s.m_map) where
  -- A check of a table without duplicate keys does not throw. Each entry is counted up by one, is
  -- dropped if its counter stood at 3, and stays if it stands above; and the hang-ups are those of
  -- the dropped connections in the order of the table, each taken from epoll and then closed.
  pub check_lem :
      ((check s).0 ≡ ok tt)
      × ((k : K) → lookup k (check s).1.m_map ≡ aged (lookup k s.m_map))
      × ((check s).1.hang_ups
          ≡ s.hang_ups ++ given_up (λ fd. epoll_delete fd ∷ close fd ∷ []) s.m_map)
  unfolding check
  check_lem = round-Checked _ s u

  -- The same of the check for sockets, which only closes.
  pub check_boost_lem :
      ((check_boost s).0 ≡ ok tt)
      × ((k : K) → lookup k (check_boost s).1.m_map ≡ aged (lookup k s.m_map))
      × ((check_boost s).1.hang_ups ≡ s.hang_ups ++ given_up (λ fd. close fd ∷ []) s.m_map)
  unfolding check_boost
  check_boost_lem = round-Checked _ s u

  pub check-NodupKeys : NodupKeys (check s).1.m_map
  unfolding check
  check-NodupKeys = check_all-NodupKeys _ s.m_map s u
