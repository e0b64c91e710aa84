-- ===== src/Evaluator/Reference.antt =====
-- The check against a definition that builds the new table in one pass.
use pick_up_the_light_server.Prelude.{
  ◌+◌, ◌≡◌, refl, false, none, some, List, [], ◌∷◌, ◌++◌, arith, ltb, append_assoc, append-nil,
  ◌==◌ as nat_beq, if◌then◌else◌, inl, inr, Bool-cases,
}
use pick_up_the_light_server.Outcome.{ok}
use pick_up_the_light_server.Table.{Key, ◌==◌, Table, lookup, erase, adjust}
use pick_up_the_light_server.Table.Laws.{NodupKeys}
use pick_up_the_light_server.Evaluator.{
  Info, HangUp, epoll_delete, close, Evaluator, at_put, check_entry, check_all, check, check_boost,
}
use pick_up_the_light_server.Evaluator.Checks.{given_up}

abbrev older : Info → Info
older info = record info { num = info.num + 1 }

-- The table after a check: without the entries that were at 3, and with the others counted up.
abbrev pub aged_all {ℓ} : {K : Type ℓ} → Table K Info → Table K Info
aged_all [] = []
aged_all ((fd, info) ∷ m) =
    if nat_beq info.num 3
    then aged_all m
    else (fd, if ltb info.num 3 then older info else info) ∷ aged_all m

module _ {ℓ} {K : Type ℓ} ⦃e : Key K⦄ where
  -- No key of the first table is in the second one.
  abbrev Apart : Table K Info → Table K Info → Type 0
  Apart [] done = Unit
  Apart ((fd, info) ∷ m) done = (lookup fd done ≡ none) × Apart m done

  lookup-behind :
      (fd : K) (info : Info) (done rest : Table K Info)
      → lookup fd done ≡ none
      → lookup fd (done ++ (fd, info) ∷ rest) ≡ some info
  unfolding lookup
  lookup-behind fd info [] rest h = ground (arith, e.same_iff fd fd)
  lookup-behind fd info ((j, i) ∷ done) rest h = ground (arith, h, lookup-behind fd info done rest)

  lookup-last :
      (j fd : K) (info : Info) (done : Table K Info)
      → lookup j done ≡ none
      → (fd == j) ≡ false
      → lookup j (done ++ (fd, info) ∷ []) ≡ none
  unfolding lookup
  lookup-last j fd info [] h other = ground (arith, other)
  lookup-last j fd info ((k, i) ∷ done) h other =
      ground (arith, h, other, lookup-last j fd info done)

  Apart-last :
      (fd : K) (info : Info) (m done : Table K Info)
      → Apart m done
      → lookup fd m ≡ none
      → Apart m (done ++ (fd, info) ∷ [])
  unfolding lookup
  Apart-last fd info [] done a h = tt
  Apart-last fd info ((j, i) ∷ m) done a h = (
    lookup-last j fd info done a.0 (ground (arith, h, e.same_iff j fd, e.same_iff fd j)),
    Apart-last fd info m done a.1 (ground (arith, h)),
  )

  erase-absent : (fd : K) (m : Table K Info) → lookup fd m ≡ none → erase fd m ≡ m
  unfolding lookup erase
  erase-absent fd [] h = refl
  erase-absent fd ((j, i) ∷ m) h = ground (arith, h, erase-absent fd m)

  erase-behind :
      (fd : K) (info : Info) (done rest : Table K Info)
      → lookup fd done ≡ none
      → lookup fd rest ≡ none
      → erase fd (done ++ (fd, info) ∷ rest) ≡ done ++ rest
  unfolding lookup erase
  erase-behind fd info [] rest h g = ground (arith, e.same_iff fd fd, erase-absent fd rest g)
  erase-behind fd info ((j, i) ∷ done) rest h g =
      ground (arith, h, g, erase-behind fd info done rest)

  adjust-behind :
      (fd : K) (info : Info) (f : Info → Info) (done rest : Table K Info)
      → lookup fd done ≡ none
      → adjust fd f (done ++ (fd, info) ∷ rest) ≡ done ++ (fd, f info) ∷ rest
  unfolding lookup adjust
  adjust-behind fd info f [] rest h = ground (arith, e.same_iff fd fd)
  adjust-behind fd info f ((j, i) ∷ done) rest h =
      ground (arith, h, adjust-behind fd info f done rest)

  module _ (hang_up : K → List (HangUp K)) where
    abbrev Agree : Table K Info → Evaluator K → Table K Info → List (HangUp K) → Type ℓ
    Agree copy s done hung = check_all hang_up copy s ≡ (
      ok tt,
      record { m_map = done ++ aged_all copy; hang_ups = hung ++ given_up hang_up copy },
    )

    check_all-aged_all :
        (copy done : Table K Info) (hung : List (HangUp K))
        → NodupKeys copy
        → Apart copy done
        → Agree copy (record { m_map = done ++ copy; hang_ups = hung }) done hung
    unfolding check_all check_entry at_put
    check_all-aged_all [] done hung u a = ground (arith, append-nil hung)
    check_all-aged_all ((fd, info) ∷ copy) done hung u a = elim (Bool-cases (nat_beq info.num 3)) [
      | inl old ↦ ground (
        arith,
        old,
        erase-behind fd info done copy a.0 u.0,
        check_all-aged_all copy done (hung ++ hang_up fd) u.1 a.1,
        append_assoc hung (hang_up fd) (given_up hang_up copy),
      )
      | inr young ↦ elim (Bool-cases (ltb info.num 3)) [
        | inl low ↦ ground (
          arith,
          young,
          low,
          lookup-behind fd info done copy a.0,
          adjust-behind fd info older done copy a.0,
          check_all-aged_all copy (done ++ (fd, older info) ∷ []) hung u.1
              (Apart-last fd (older info) copy done a.1 u.0),
          append_assoc done ((fd, older info) ∷ []) copy,
          append_assoc done ((fd, older info) ∷ []) (aged_all copy),
        )
        | inr high ↦ ground (
          arith,
          young,
          high,
          check_all-aged_all copy (done ++ (fd, info) ∷ []) hung u.1
              (Apart-last fd info copy done a.1 u.0),
          append_assoc done ((fd, info) ∷ []) copy,
          append_assoc done ((fd, info) ∷ []) (aged_all copy),
        )
      ]
    ]

  Apart-nil : (m : Table K Info) → Apart m []
  unfolding lookup
  Apart-nil [] = tt
  Apart-nil ((fd, info) ∷ m) = (refl, Apart-nil m)

  -- The loops of the two checking threads, which walk over a copy and change the table entry by
  -- entry, agree with the definition that builds the new table in one pass: on a table without
  -- duplicate keys they do not throw and leave exactly that table, in its order, and they hang up
  -- exactly the connections that are not in it any longer, in the order of the table; the one takes
  -- each from epoll and closes it, the other closes it only.
  pub check-aged_all :
      (s : Evaluator K)
      → NodupKeys s.m_map
      → (check s ≡ (
        ok tt,
        record {
          m_map = aged_all s.m_map;
          hang_ups = s.hang_ups ++ given_up (λ fd. epoll_delete fd ∷ close fd ∷ []) s.m_map;
        },
      ))
        × (check_boost s ≡ (
          ok tt,
          record {
            m_map = aged_all s.m_map;
            hang_ups = s.hang_ups ++ given_up (λ fd. close fd ∷ []) s.m_map;
          },
        ))
  unfolding check check_boost
  check-aged_all s u = (
    check_all-aged_all (λ fd. epoll_delete fd ∷ close fd ∷ []) s.m_map [] s.hang_ups u
        (Apart-nil s.m_map),
    check_all-aged_all (λ fd. close fd ∷ []) s.m_map [] s.hang_ups u (Apart-nil s.m_map),
  )
