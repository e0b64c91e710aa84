-- ===== src/Evaluator/Overlap.antt =====
-- The methods of the heartbeat table beside a check that is under way. All of them take a
-- `shared_lock`, which keeps no other method out, so a call can come between two accesses of the check
-- to the table: after the copy was made, and between the load and the store of `num += 1`. A call of
-- another method is one access here. Two accesses at the same time, which are a data race and have no
-- defined behaviour, are not followed.
pub mod Room
pub mod Rounds
pub mod Lively
pub mod Alone
mod Tests
use pick_up_the_light_server.Prelude.{
  ℕ, ◌+◌, ◌-◌, ◌<◌, ◌≤◌, ◌≡◌, ◌≢◌, Bool, true, false, ◌&&◌, Option, none, some, List, [], ◌∷◌, ◌++◌,
  arith, ltb, ◌==◌, if◌then◌else◌, inl, inr, Bool-cases,
}
use pick_up_the_light_server.Outcome.{
  Outcome, ok, throws, undefined, out_of_range, Exec, continue, ◌>>◌,
}
use pick_up_the_light_server.Text.{Bytes}
use pick_up_the_light_server.Table.{Key, Table, lookup, erase, adjust}
use pick_up_the_light_server.Evaluator.{
  Info, HangUp, epoll_delete, close, Evaluator, add, remove, set_0, add_user_id,
}

-- Where the checking thread is: between two rounds, before an entry of the copy, or in `num += 1` for
-- an entry whose `num` it has loaded.
pub data Checker {ℓ} (K : Type ℓ) : Type ℓ where
  sleeping : Checker K
  visiting : Table K Info → Checker K
  adding : K → ℕ → Table K Info → Checker K

pub record Shared {ℓ} (K : Type ℓ) : Type ℓ where
  pub table : Evaluator K
  pub checker : Checker K

-- A call of a method by another thread, or the next access of the checking thread.
pub data Event {ℓ} (K : Type ℓ) : Type ℓ where
  added : K → Bytes → Event K
  removed : K → Event K
  heart : K → Event K
  logged_in : K → Bytes → Event K
  checking : Event K

module _ {ℓ} {K : Type ℓ} ⦃e : Key K⦄ where
  -- An entry of the copy: what is in the copy decides, and `at` finds the entry in the table.
  unfoldable pub visit_entry : K → Info → Table K Info → Exec (Shared K) (Unit {ℓ})
  visit_entry fd info copy s =
      if info.num == 3
      then (
        ok tt,
        record {
          table = record s.table {
            m_map = erase fd s.table.m_map;
            hang_ups = s.table.hang_ups ++ epoll_delete fd ∷ close fd ∷ [];
          };
          checker = visiting copy;
        },
      )
      else (if ltb info.num 3
          then elim (lookup fd s.table.m_map) [
            | none ↦ (throws out_of_range, s)
            | some found ↦ (ok tt, record s { checker = adding fd found.num copy })
          ]
          else (ok tt, record s { checker = visiting copy }))

  -- The store of `num += 1`, through the reference that `at` gave.
  unfoldable pub store_num : K → ℕ → Table K Info → Shared K → Shared K
  store_num fd num copy s = record {
    table = record s.table {
      m_map = adjust fd (λ info. record info { num = num + 1 }) s.table.m_map;
    };
    checker = visiting copy;
  }

  unfoldable pub check_access : Checker K → Exec (Shared K) (Unit {ℓ})
  unfolding visit_entry store_num
  check_access sleeping s = (ok tt, record s { checker = visiting s.table.m_map })
  check_access (visiting []) s = (ok tt, record s { checker = sleeping })
  check_access (visiting ((fd, info) ∷ copy)) s = visit_entry fd info copy s
  -- A reference to an entry that was removed meanwhile is not valid any more.
  check_access (adding fd num copy) s = elim (lookup fd s.table.m_map) [
    | none ↦ (undefined, s)
    | some found ↦ (ok tt, store_num fd num copy s)
  ]

  abbrev on_table : Exec (Evaluator K) (Unit {ℓ}) → Exec (Shared K) (Unit {ℓ})
  on_table call s = let (r, t) = call s.table in (r, record s { table = t })

  unfoldable pub handle : Event K → Exec (Shared K) (Unit {ℓ})
  unfolding add remove set_0 add_user_id check_access
  handle (added fd ip) s = on_table (add fd ip) s
  handle (removed fd) s = on_table (remove fd) s
  handle (heart fd) s = on_table (set_0 fd) s
  handle (logged_in fd user_id) s = on_table (add_user_id fd user_id) s
  handle checking s = check_access s.checker s

  -- A history ends where a call throws.
  unfoldable pub run : List (Event K) → Exec (Shared K) (Unit {ℓ})
  unfolding handle
  run [] s = (ok tt, s)
  run (ev ∷ evs) s = (handle ev >> run evs) s
