-- ===== src/Evaluator/Overlap/Lively.antt =====
-- Connections whose heartbeats are not lost.
use pick_up_the_light_server.Prelude.{ℕ, ◌≡◌, none, some, List, [], ◌∷◌, arith}
use pick_up_the_light_server.Outcome.{Outcome, ok, Exec, continue}
use pick_up_the_light_server.Text.{Bytes}
use pick_up_the_light_server.Table.{Key, lookup}
use pick_up_the_light_server.Table.Laws.{lookup-insert, NodupKeys, insert-NodupKeys}
use pick_up_the_light_server.Evaluator.{Info, Evaluator, new_info, add}
use pick_up_the_light_server.Evaluator.Overlap.{
  sleeping, Shared, Event, added, removed, heart, logged_in, checking, handle, run,
}
use pick_up_the_light_server.Evaluator.Overlap.Room.{
  IsAllowed, rounds_left, IsLively, HasRoom, add-HasRoom, remove-HasRoom, logged_in-HasRoom,
  heart-HasRoom,
}
use pick_up_the_light_server.Evaluator.Overlap.Rounds.{check-HasRoom}

module _ {ℓ} {K : Type ℓ} ⦃e : Key K⦄ (k : K) where
  handle-HasRoom :
      (ev : Event K) (n : ℕ) (s : Shared K)
      → IsAllowed k n s ev
      → HasRoom k n s
      → HasRoom k (rounds_left k n s ev) (handle ev s).1
  unfolding handle
  handle-HasRoom (added fd ip) n s all h = add-HasRoom k h fd ip
  handle-HasRoom (removed fd) n s all h = remove-HasRoom k h fd all
  handle-HasRoom (heart fd) n s all h = heart-HasRoom k h fd
  handle-HasRoom (logged_in fd user_id) n s all h = logged_in-HasRoom k h fd user_id
  handle-HasRoom checking n s all h = check-HasRoom k n s.table s.checker all h

  continue-keeps :
      (r : Outcome (Unit {ℓ})) (f : Exec (Shared K) (Unit {ℓ})) (t : Shared K) {n : ℕ}
      → HasRoom k n t
      → (i : Info) × (lookup k (f t).1.table.m_map ≡ some i)
      → (i : Info) × (lookup k (continue r (λ _. f) t).1.table.m_map ≡ some i)
  continue-keeps (ok a) f t h rest = rest
  continue-keeps _ f t h rest = (h.info, h.there)

  run-HasRoom :
      (evs : List (Event K)) (n : ℕ) (s : Shared K)
      → HasRoom k n s
      → IsLively k n evs s
      → (i : Info) × (lookup k (run evs s).1.table.m_map ≡ some i)
  unfolding run
  run-HasRoom [] n s h l = (h.info, h.there)
  run-HasRoom (ev ∷ evs) n s h (all, later) =
      let h' = handle-HasRoom ev n s all h in
      continue-keeps (handle ev s).0 (run evs) (handle ev s).1 h'
        (run-HasRoom evs (rounds_left k n s ev) (handle ev s).1 h' later)

  -- A connection that is added between two rounds of the check, that nobody removes, and of whose
  -- heartbeats at least one in every three rounds falls between two rounds, is in the table after any
  -- history, in which calls of the methods may come between any two accesses of the check.
  pub run-lively :
      (ip : Bytes) (evs : List (Event K)) (t : Evaluator K)
      → NodupKeys t.m_map
      → lookup k t.m_map ≡ none
      → IsLively k 3 evs (handle (added k ip) (record { table = t; checker = sleeping })).1
      → (i : Info) × (lookup k
            (run (added k ip ∷ evs) (record { table = t; checker = sleeping })).1.table.m_map
          ≡ some i)
  unfolding run handle add
  run-lively ip evs t u new l = run-HasRoom evs 3 _ h l
    where
      h : HasRoom k 3 (record { table = (add k ip t).1; checker = sleeping })
      h = record {
        info = new_info ip;
        there = ground (arith, new, lookup-insert k k (new_info ip) t.m_map, e.same_iff k k);
        room = omega arith;
        nodup = insert-NodupKeys k (new_info ip) t.m_map u;
        nodup_copy = tt;
      }
