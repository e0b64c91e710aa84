-- ===== src/Evaluator/Overlap/Rounds.antt =====
-- The entry of one connection, and the accesses of the check.
use pick_up_the_light_server.Prelude.{
  ◌==◌ as nat_beq, ltb, ◌++◌, ℕ, ◌+◌, ◌-◌, ◌<◌, ◌≡◌, refl, sym, subst, Bool, true, false, Option,
  none, some, [], ◌∷◌, arith, if◌then◌else◌, inl, inr, Bool-cases,
}
use pick_up_the_light_server.Outcome.{Outcome, ok, throws, undefined, out_of_range}
use pick_up_the_light_server.Table.{Key, ◌==◌, Table, lookup, erase}
use pick_up_the_light_server.Table.Laws.{
  lookup-erase, lookup-adjust, erase-NodupKeys, adjust-NodupKeys,
}
use pick_up_the_light_server.Evaluator.{Info, epoll_delete, close, Evaluator}
use pick_up_the_light_server.Evaluator.Overlap.{
  Checker, sleeping, visiting, adding, Shared, checking, visit_entry, store_num, check_access,
}
use pick_up_the_light_server.Evaluator.Overlap.Room.{IsAllowed, rounds_left, FitsCopy, HasRoom}

module _ {ℓ} {K : Type ℓ} ⦃e : Key K⦄ (k : K) where
  begin-HasRoom :
      (n : ℕ) (t : Evaluator K)
      → 0 < n
      → HasRoom k n (record { table = t; checker = sleeping })
      → HasRoom k (n - 1) (record { table = t; checker = visiting t.m_map })
  begin-HasRoom n t some_left h = record {
    info = h.info;
    there = h.there;
    room = rw h.there (omega (arith, h.room, some_left), omega (arith, h.room, some_left));
    nodup = h.nodup;
    nodup_copy = h.nodup;
  }

  pick :
      (b : Bool) (n : ℕ) (x y : Outcome (Unit {ℓ}) × Shared K)
      → HasRoom k n x.1
      → HasRoom k n y.1
      → HasRoom k n (if b then x else y).1
  pick true n x y h i = h
  pick false n x y h i = i

  pick_entry :
      (o : Option Info) (n : ℕ) (x : Outcome (Unit {ℓ}) × Shared K)
      (f : Info → Outcome (Unit {ℓ}) × Shared K)
      → HasRoom k n x.1
      → ((found : Info) → HasRoom k n (f found).1)
      → HasRoom k n
          (elim o as (λ i. Outcome (Unit {ℓ}) × Shared K) [ none ↦ x | some found ↦ f found ]).1
  pick_entry none n x f h i = h
  pick_entry (some found) n x f h i = i found

  -- The entry of `k` is not given up: `at` finds it, and loads its `num`.
  visit_self :
      (t : Evaluator K) (i info : Info) (copy : Table K Info) (c : Checker K)
      → i.num < 3
      → lookup k t.m_map ≡ some info
      → (visit_entry k i copy (record { table = t; checker = c })).1
        ≡ record { table = t; checker = adding k info.num copy }
  unfolding visit_entry
  visit_self t i info copy c small there = ground (arith, small, there)

  visit_other :
      (n : ℕ) (t : Evaluator K) (fd : K) (i : Info) (copy : Table K Info)
      → (fd == k) ≡ false
      → HasRoom k n (record { table = t; checker = visiting ((fd, i) ∷ copy) })
      → HasRoom k n
          (visit_entry fd i copy (record { table = t; checker = visiting ((fd, i) ∷ copy) })).1
  unfolding visit_entry lookup
  visit_other n t fd i copy other h =
      let room : FitsCopy k n h.info.num (lookup k copy) = rw other at h.room in
      let gone : Outcome (Unit {ℓ}) × Shared K = (
        ok tt,
        record {
          table = record t {
            m_map = erase fd t.m_map;
            hang_ups = t.hang_ups ++ epoll_delete fd ∷ close fd ∷ [];
          };
          checker = visiting copy;
        },
      ) in
      let skipped : Outcome (Unit {ℓ}) × Shared K =
        (ok tt, record { table = t; checker = visiting copy }) in
      let missing : Outcome (Unit {ℓ}) × Shared K =
        (throws out_of_range, record { table = t; checker = visiting ((fd, i) ∷ copy) }) in
      let loads : Info → Outcome (Unit {ℓ}) × Shared K =
        λ found. (ok tt, record { table = t; checker = adding fd found.num copy }) in
      pick (nat_beq i.num 3) n gone
        (if ltb i.num 3
          then elim (lookup fd t.m_map) as (λ o. Outcome (Unit {ℓ}) × Shared K) [
            | none ↦ missing
            | some found ↦ loads found
          ]
          else skipped)
        (record {
          info = h.info;
          there = ground (arith, h.there, other, lookup-erase fd k t.m_map, e.same_iff fd k);
          room = room;
          nodup = erase-NodupKeys fd t.m_map h.nodup;
          nodup_copy = h.nodup_copy.1;
        })
        (pick (ltb i.num 3) n
          (elim (lookup fd t.m_map) as (λ o. Outcome (Unit {ℓ}) × Shared K) [
            | none ↦ missing
            | some found ↦ loads found
          ])
          skipped
          (pick_entry (lookup fd t.m_map) n missing loads h (λ found. record {
            info = h.info;
            there = h.there;
            room = rw other room;
            nodup = h.nodup;
            nodup_copy = h.nodup_copy.1;
          }))
          (record {
            info = h.info;
            there = h.there;
            room = room;
            nodup = h.nodup;
            nodup_copy = h.nodup_copy.1;
          }))

  visit_same :
      (n : ℕ) (t : Evaluator K) (i : Info) (copy : Table K Info)
      → HasRoom k n (record { table = t; checker = visiting ((k, i) ∷ copy) })
      → HasRoom k n
          (visit_entry k i copy (record { table = t; checker = visiting ((k, i) ∷ copy) })).1
  unfolding lookup
  visit_same n t i copy h =
      let itself : (k == k) ≡ true = (e.same_iff k k).1 refl in
      let (a, b) = rw itself at h.room in
      subst (HasRoom k n)
        (sym (visit_self t i h.info copy (visiting ((k, i) ∷ copy)) (omega (arith, a)) h.there))
        (record {
          info = h.info;
          there = h.there;
          room = rw itself (b, b, h.nodup_copy.0);
          nodup = h.nodup;
          nodup_copy = h.nodup_copy.1;
        })

  visit-HasRoom :
      (n : ℕ) (t : Evaluator K) (fd : K) (i : Info) (copy : Table K Info)
      → HasRoom k n (record { table = t; checker = visiting ((fd, i) ∷ copy) })
      → HasRoom k n
          (visit_entry fd i copy (record { table = t; checker = visiting ((fd, i) ∷ copy) })).1
  visit-HasRoom n t fd i copy h = elim (Bool-cases (fd == k)) [
    | inl same ↦
        subst
          (λ j.
            HasRoom k n (record { table = t; checker = visiting ((j, i) ∷ copy) })
            → HasRoom k n
                (visit_entry j i copy (record { table = t; checker = visiting ((j, i) ∷ copy) })).1)
          (sym ((e.same_iff fd k).0 same)) (visit_same n t i copy) h
    | inr other ↦ visit_other n t fd i copy other h
  ]

  store-HasRoom :
      (n : ℕ) (t : Evaluator K) (fd : K) (loaded : ℕ) (copy : Table K Info)
      → HasRoom k n (record { table = t; checker = adding fd loaded copy })
      → HasRoom k n
          (store_num fd loaded copy (record { table = t; checker = adding fd loaded copy }))
  unfolding store_num
  store-HasRoom n t fd loaded copy h =
      let f = λ (i : Info). record i { num = loaded + 1 } in
      let nodup = adjust-NodupKeys fd f t.m_map h.nodup in
      elim (Bool-cases (fd == k)) [
        | inl same ↦
            let (a, b, c) = rw same at h.room in
            record {
              info = f h.info;
              there = ground (arith, h.there, same, lookup-adjust fd k f t.m_map, e.same_iff fd k);
              room = rw c (omega (arith, a));
              nodup = nodup;
              nodup_copy = h.nodup_copy;
            }
        | inr other ↦ record {
          info = h.info;
          there = ground (arith, h.there, other, lookup-adjust fd k f t.m_map, e.same_iff fd k);
          room = rw other at h.room;
          nodup = nodup;
          nodup_copy = h.nodup_copy;
        }
      ]

  pub check-HasRoom :
      (n : ℕ) (t : Evaluator K) (c : Checker K)
      → IsAllowed k n (record { table = t; checker = c }) checking
      → HasRoom k n (record { table = t; checker = c })
      → HasRoom k
          (rounds_left k n (record { table = t; checker = c }) checking)
          (check_access c (record { table = t; checker = c })).1
  unfolding check_access lookup
  check-HasRoom n t sleeping some_left h = begin-HasRoom n t some_left.0 h
  check-HasRoom n t (visiting []) all h = record {
    info = h.info;
    there = h.there;
    room = h.room;
    nodup = h.nodup;
    nodup_copy = tt;
  }
  check-HasRoom n t (visiting ((fd, i) ∷ copy)) all h = visit-HasRoom n t fd i copy h
  check-HasRoom n t (adding fd loaded copy) all h =
      pick_entry (lookup fd t.m_map) n
        (undefined, record { table = t; checker = adding fd loaded copy })
        (λ found.
          (ok tt, store_num fd loaded copy (record { table = t; checker = adding fd loaded copy })))
        h (λ found. store-HasRoom n t fd loaded copy h)
