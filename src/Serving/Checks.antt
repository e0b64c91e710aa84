-- ===== src/Serving/Checks.antt =====
-- What a check of the heartbeats does to the descriptors.
use pick_up_the_light_server.Prelude.{ℕ, ◌+◌, ◌≡◌, refl, sym, ◌∙◌, ap, List, [], ◌∷◌, ◌++◌, arith}
use pick_up_the_light_server.Outcome.{Outcome, ok, returned, bind-returned}
use pick_up_the_light_server.Table.{number_key}
use pick_up_the_light_server.Table.Laws.{keys}
use pick_up_the_light_server.Evaluator.{check_all, Evaluator, HangUp, epoll_delete, close, check}
use pick_up_the_light_server.Platform.{Platform, World}
use pick_up_the_light_server.Epoll.{unwatch}
use pick_up_the_light_server.Evaluator.Drops.{drops, unwatch_all, hang_ups, check_all-keys}
use pick_up_the_light_server.MyServer.Frame.{descriptors}
use pick_up_the_light_server.Serving.{hang_up_all, check_with, check_connections}
use pick_up_the_light_server.Epoll.Counts.{times}

abbrev pub close_all : List ℕ → List ℕ → List ℕ
close_all [] xs = xs
close_all (fd ∷ fds) xs = close_all fds (fd ∷ xs)

pub times-close_all :
    (k : ℕ) (fds xs : List ℕ) → times k (close_all fds xs) ≡ times k fds + times k xs
times-close_all k [] xs = omega arith
times-close_all k (fd ∷ fds) xs = omega (arith, times-close_all k fds (fd ∷ xs))

abbrev hang_up : ℕ → List (HangUp ℕ)
hang_up fd = epoll_delete fd ∷ close fd ∷ []

module _ (P : Platform) where
  hang_up_all-drops :
      (fds : List ℕ) (w : World P)
      → hang_up_all P (hang_ups hang_up fds) w
        ≡ (ok tt, record w { watched = unwatch_all fds w.watched; closed = close_all fds w.closed })
  unfolding hang_up_all
  hang_up_all-drops [] w = refl
  hang_up_all-drops (fd ∷ fds) w =
      hang_up_all-drops fds (record w { watched = unwatch fd w.watched; closed = fd ∷ w.closed })

  -- What a check does first, and what is left to do.
  pub check_with-drops :
      (hang_up : ℕ → List (HangUp ℕ)) (v w : World P)
      → check_with P (λ s. check_all hang_up s.m_map s) v ≡ (ok tt, w)
      → (e : Evaluator ℕ) × (keys e.m_map
          ≡ unwatch_all (drops v.evaluator.m_map) (keys v.evaluator.m_map))
        × (hang_up_all P (hang_ups hang_up (drops v.evaluator.m_map)) (record v { evaluator = e })
            ≡ (ok tt, w))
  unfolding check_with
  check_with-drops hang_up v w h =
      let r = check_all hang_up v.evaluator.m_map (record v.evaluator { hang_ups = [] }) in
      let e = r.1 in
      let e' : Evaluator ℕ = record e { hang_ups = v.evaluator.hang_ups ++ e.hang_ups } in
      let (a, u, first, second) =
        bind-returned (λ x. (r.0, x)) (λ _. hang_up_all P e.hang_ups) (record v { evaluator = e' })
          h in
      let (ks, hs) =
        check_all-keys hang_up e v.evaluator.m_map (record v.evaluator { hang_ups = [] })
          (λ i. ((first i).0, e)) in
      let same : record v { evaluator = e' } ≡ u =
        ap (λ (x : Outcome (Unit {0}) × World P). x.1) first in
      (e', ks, ap (λ l. hang_up_all P l (record v { evaluator = e' })) (sym hs) ∙ (rw same second))

  -- A check that does not throw takes the connections that have been silent for too long out of the
  -- table and out of epoll, and closes their descriptors.
  pub check_connections-drops :
      (v w : World P)
      → check_connections P v ≡ (ok tt, w)
      → let fds = drops v.evaluator.m_map in
        descriptors P w ≡ (
          unwatch_all fds (keys v.evaluator.m_map),
          unwatch_all fds v.watched,
          close_all fds v.closed,
        )
  unfolding check_connections check
  check_connections-drops v w h =
      let fds = drops v.evaluator.m_map in
      let (e, ks, done) = check_with-drops hang_up v w h in
      let ends = returned (sym (hang_up_all-drops fds (record v { evaluator = e })) ∙ done) in
      ap (descriptors P) (sym ends.1)
      ∙ ap (λ l. (l, unwatch_all fds v.watched, close_all fds v.closed)) ks
