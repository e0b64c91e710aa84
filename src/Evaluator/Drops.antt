-- ===== src/Evaluator/Drops.antt =====
-- What a check takes out of the table, whatever else it does about a connection.
use pick_up_the_light_server.Prelude.{
  ℕ, ◌+◌, ◌≤◌, ◌≡◌, refl, sym, ◌∙◌, ap, subst, Bool, true, false, ◌==◌, List, [], ◌∷◌, ◌++◌, arith,
  if◌then◌else◌, append_assoc, append-nil,
}
use pick_up_the_light_server.Outcome.{Outcome, ok, returned, bind-returned}
use pick_up_the_light_server.Table.{Table, number_key}
use pick_up_the_light_server.Table.Laws.{keys, keys-adjust}
use pick_up_the_light_server.Epoll.Counts.{times, keys-erase, times-unwatch}
use pick_up_the_light_server.Evaluator.{Info, HangUp, Evaluator, at_put, check_entry, check_all}
use pick_up_the_light_server.Epoll.{unwatch}

-- The connections that have been silent for too long.
abbrev pub drops : Table ℕ Info → List ℕ
drops [] = []
drops ((fd, info) ∷ m) = if info.num == 3 then fd ∷ drops m else drops m

abbrev pub unwatch_all : List ℕ → List ℕ → List ℕ
unwatch_all [] xs = xs
unwatch_all (fd ∷ fds) xs = unwatch_all fds (unwatch fd xs)

pub times-unwatch_all :
    (k : ℕ) (fds xs : List ℕ)
    → times k (unwatch_all fds xs) ≡ (if times k fds == 0 then times k xs else 0)
times-unwatch_all k [] xs = refl
times-unwatch_all k (fd ∷ fds) xs =
    ground (arith, times-unwatch_all k fds (unwatch fd xs), times-unwatch fd k xs)

pub times-drops : (k : ℕ) (m : Table ℕ Info) → times k (drops m) ≤ times k (keys m)
times-drops k [] = omega arith
times-drops k ((fd, info) ∷ m) = ground (arith, times-drops k m)

module _ (hang_up : ℕ → List (HangUp ℕ)) where
  abbrev pub hang_ups : List ℕ → List (HangUp ℕ)
  hang_ups [] = []
  hang_ups (fd ∷ fds) = hang_up fd ++ hang_ups fds

  -- One entry: the keys, and what was hung up.
  abbrev Entry : ℕ → Info → Evaluator ℕ → Evaluator ℕ → Type 0
  Entry fd info s t =
      (keys t.m_map ≡ (if info.num == 3 then unwatch fd (keys s.m_map) else keys s.m_map))
      × (t.hang_ups ≡ (if info.num == 3 then s.hang_ups ++ hang_up fd else s.hang_ups))

  check_entry-keys :
      (fd : ℕ) (info : Info) (s : Evaluator ℕ) → Entry fd info s (check_entry hang_up fd info s).1
  unfolding check_entry at_put
  check_entry-keys fd info s = (
    ground (
      arith,
      keys-erase fd s.m_map,
      keys-adjust fd (λ (i : Info). record i { num = i.num + 1 }) s.m_map,
    ),
    ground arith,
  )

  -- An entry before the others.
  entry_first :
      (gone : Bool) (fd : ℕ) (rest ks ks' ks'' : List ℕ) (hs hs' hs'' : List (HangUp ℕ))
      → ks' ≡ (if gone then unwatch fd ks else ks)
      → hs' ≡ (if gone then hs ++ hang_up fd else hs)
      → ks'' ≡ unwatch_all rest ks'
      → hs'' ≡ hs' ++ hang_ups rest
      → (ks'' ≡ unwatch_all (if gone then fd ∷ rest else rest) ks)
        × (hs'' ≡ hs ++ hang_ups (if gone then fd ∷ rest else rest))
  entry_first true fd rest ks ks' ks'' hs hs' hs'' k h k' h' = (
    k' ∙ ap (unwatch_all rest) k,
    h' ∙ ap (λ l. l ++ hang_ups rest) h ∙ append_assoc hs (hang_up fd) (hang_ups rest),
  )
  entry_first false fd rest ks ks' ks'' hs hs' hs'' k h k' h' =
      (k' ∙ ap (unwatch_all rest) k, h' ∙ ap (λ l. l ++ hang_ups rest) h)

  module _ (t : Evaluator ℕ) where
    pub check_all-keys :
        (copy : Table ℕ Info) (s : Evaluator ℕ)
        → check_all hang_up copy s ≡ (ok tt, t)
        → (keys t.m_map ≡ unwatch_all (drops copy) (keys s.m_map))
          × (t.hang_ups ≡ s.hang_ups ++ hang_ups (drops copy))
    unfolding check_all
    check_all-keys [] s h =
        let same = (returned h).1 in
        (
          ap (λ (e : Evaluator ℕ). keys e.m_map) (sym same),
          ap (λ (e : Evaluator ℕ). e.hang_ups) (sym same) ∙ sym (append-nil s.hang_ups),
        )
    check_all-keys ((fd, info) ∷ copy) s h =
        let (u, s', first, second) =
          bind-returned (check_entry hang_up fd info) (λ _. check_all hang_up copy) s h in
        let (ks, hs) = check_all-keys copy s' second in
        let (k, g) =
          subst (Entry fd info s) (ap (λ (r : Outcome (Unit {0}) × Evaluator ℕ). r.1) first)
            (check_entry-keys fd info s) in
        entry_first (info.num == 3) fd (drops copy) (keys s.m_map) (keys s'.m_map) (keys t.m_map)
          s.hang_ups s'.hang_ups t.hang_ups k g ks hs
