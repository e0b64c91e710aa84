-- ===== src/Evaluator.antt =====
-- userstatusevaluator.h and userstatusevaluator.cpp: the table of connections with the heartbeat
-- counter of each. The key is a file descriptor in one set of overloads and a shared socket pointer
-- in the other; the model is generic in it. A method and a round of the check are one step each in this
-- file, as where no other method runs beside them. The lock they take, a `shared_lock`, does not see to
-- that: Evaluator.Overlap follows the check access by access, with calls in between.
pub mod Checks
pub mod Overlap
pub mod Liveness
pub mod Drops
pub mod Reference
mod Tests
use pick_up_the_light_server.Prelude.{
  ℕ, ◌+◌, Option, none, some, List, [], ◌∷◌, ◌++◌, ltb, ◌==◌, if◌then◌else◌,
}
use pick_up_the_light_server.Outcome.{Outcome, ok, throws, out_of_range, Exec, ◌>>=◌, ◌>>◌}
use pick_up_the_light_server.Text.{Bytes}
use pick_up_the_light_server.Table.{Key, Table, lookup, insert, erase, adjust}

-- `num` is only ever set to 0 and counted up, so it is a natural number.
pub record Info : Type 0 where
  pub ip : Bytes
  pub user_id : Bytes
  pub num : ℕ

-- What the check does outside the table when it gives a connection up.
pub data HangUp {ℓ} (K : Type ℓ) : Type ℓ where
  epoll_delete : K → HangUp K
  close : K → HangUp K

pub record Evaluator {ℓ} (K : Type ℓ) : Type ℓ where
  pub m_map : Table K Info
  pub hang_ups : List (HangUp K)

abbrev pub no_connections {ℓ} : {K : Type ℓ} → Evaluator K
no_connections = record { m_map = []; hang_ups = [] }

abbrev pub new_info : Bytes → Info
new_info ip = record { ip = ip; user_id = []; num = 0 }

module _ {ℓ} {K : Type ℓ} ⦃e : Key K⦄ where
  unfoldable pub add : K → Bytes → Exec (Evaluator K) (Unit {ℓ})
  add fd ip s = (ok tt, record s { m_map = insert fd (new_info ip) s.m_map })

  -- The overload for a socket, which keeps no address.
  unfoldable pub add_boost : K → Exec (Evaluator K) (Unit {ℓ})
  unfolding add
  add_boost socket_ptr = add socket_ptr []

  unfoldable pub remove : K → Exec (Evaluator K) (Unit {ℓ})
  remove fd s = (ok tt, record s { m_map = erase fd s.m_map })

  -- `m_map.at(fd)` with an assignment to a part of it.
  unfoldable pub at_put : K → (Info → Info) → Exec (Evaluator K) (Unit {ℓ})
  at_put fd f s = elim (lookup fd s.m_map) [
    | none ↦ (throws out_of_range, s)
    | some info ↦ (ok tt, record s { m_map = adjust fd f s.m_map })
  ]

  -- `m_map.at(fd)` as a value.
  unfoldable pub at_get {κ} : {A : Type κ} → K → (Info → A) → Evaluator K → Outcome A
  at_get fd f s = elim (lookup fd s.m_map) [ none ↦ throws out_of_range | some info ↦ ok (f info) ]

  unfoldable pub set_0 : K → Exec (Evaluator K) (Unit {ℓ})
  unfolding at_put
  set_0 fd = at_put fd (λ info. record info { num = 0 })

  unfoldable pub add_user_id : K → Bytes → Exec (Evaluator K) (Unit {ℓ})
  unfolding at_put
  add_user_id fd user_id = at_put fd (λ info. record info { user_id = user_id })

  unfoldable pub get_ip : K → Evaluator K → Outcome Bytes
  unfolding at_get
  get_ip fd = at_get fd (λ info. info.ip)

  unfoldable pub get_user_id : K → Evaluator K → Outcome Bytes
  unfolding at_get
  get_user_id fd = at_get fd (λ info. info.user_id)

  -- One entry of the copy that the check walks over. `hang_up` is what else is done about a
  -- connection that is given up.
  unfoldable pub check_entry : (K → List (HangUp K)) → K → Info → Exec (Evaluator K) (Unit {ℓ})
  unfolding at_put
  check_entry hang_up fd info s =
      if info.num == 3
      then (ok tt, record s { m_map = erase fd s.m_map; hang_ups = s.hang_ups ++ hang_up fd })
      else (if ltb info.num 3 then at_put fd (λ i. record i { num = i.num + 1 }) s else (ok tt, s))

  -- The loop over the copy.
  unfoldable pub check_all : (K → List (HangUp K)) → Table K Info → Exec (Evaluator K) (Unit {ℓ})
  unfolding check_entry
  check_all hang_up [] s = (ok tt, s)
  check_all hang_up ((fd, info) ∷ copy) s =
      (check_entry hang_up fd info >> check_all hang_up copy) s

  -- One round of the thread that `start` launches.
  unfoldable pub check : Exec (Evaluator K) (Unit {ℓ})
  unfolding check_all
  check s = check_all (λ fd. epoll_delete fd ∷ close fd ∷ []) s.m_map s

  -- One round of the thread that `start_boost` launches.
  unfoldable pub check_boost : Exec (Evaluator K) (Unit {ℓ})
  unfolding check_all
  check_boost s = check_all (λ socket_ptr. close socket_ptr ∷ []) s.m_map s
