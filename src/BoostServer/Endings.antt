-- ===== src/BoostServer/Endings.antt =====
-- How a wait for a header ends, and what that and a check do to the sockets.
use pick_up_the_light_server.Prelude.{
  ℕ, ◌≡◌, refl, sym, ◌∙◌, ap, subst, Option, none, some, List, [], ◌∷◌,
}
use pick_up_the_light_server.Outcome.{Outcome, ok, returned, bind-returned, pure}
use pick_up_the_light_server.Text.{Bytes}
use pick_up_the_light_server.Table.{number_key, erase}
use pick_up_the_light_server.Table.Laws.{keys}
use pick_up_the_light_server.Evaluator as Table
use pick_up_the_light_server.Evaluator.{Info, HangUp, close, check_boost, add_boost}
use pick_up_the_light_server.Evaluator.Drops.{drops, unwatch_all, hang_ups}
use pick_up_the_light_server.Epoll.Counts.{keys-erase}
use pick_up_the_light_server.Epoll.{unwatch}
use pick_up_the_light_server.Platform.{Platform, World}
use pick_up_the_light_server.MyServer.Frame.{Descriptors, descriptors, descriptors-IsOutside}
use pick_up_the_light_server.Serving.{hang_up_all}
use pick_up_the_light_server.Serving.Checks.{check_with-drops, close_all}
use pick_up_the_light_server.SendFile.{front_of}
use pick_up_the_light_server.Protocol.{to_header}
use pick_up_the_light_server.Session.{
  Completion, received, eof, operation_aborted, other_error, session_request, on_receive,
}
use pick_up_the_light_server.Session.Frame.{session_request-Keeps}
use pick_up_the_light_server.BoostServer.{check_sockets}

module _ (P : Platform) where
  -- What the completion of a wait for a header does to the connections, by the value that tells
  -- whether the session waits again.
  pub data Ending (socket_ptr : ℕ) (d e : Descriptors) : Option Bytes → Type 0 where
    again : (m_pheader : Bytes) → e ≡ d → Ending socket_ptr d e (some m_pheader)
    over : e ≡ d → Ending socket_ptr d e none
    removed : e ≡ (unwatch socket_ptr d.0, d.1, socket_ptr ∷ d.2) → Ending socket_ptr d e none

  ended :
      (socket_ptr : ℕ) (v x y : World P) (r q : Option Bytes)
      → ◌≡◌ {A = Outcome (Option Bytes) × World P} (ok r, x) (ok q, y)
      → Ending socket_ptr (descriptors P v) (descriptors P x) r
      → Ending socket_ptr (descriptors P v) (descriptors P y) q
  ended socket_ptr v x y r q e t =
      let (same, at_end) = returned e in
      subst (λ a. Ending socket_ptr (descriptors P v) (descriptors P y) a) same
        (subst (λ u. Ending socket_ptr (descriptors P v) (descriptors P u) r) at_end t)

  pub on_receive-Ending :
      (socket_ptr : ℕ) (m_pheader : Bytes) (c : Completion) (v w : World P) (r : Option Bytes)
      → on_receive P socket_ptr m_pheader c v ≡ (ok r, w)
      → Ending socket_ptr (descriptors P v) (descriptors P w) r
  unfolding on_receive Table.remove
  on_receive-Ending socket_ptr m_pheader (received bs) v w r h =
      let header = to_header (front_of bs m_pheader) in
      let (u, v', first, second) =
        bind-returned (session_request P socket_ptr header)
          (λ _. pure (some (front_of bs m_pheader))) v h in
      ended socket_ptr v v' w (some (front_of bs m_pheader)) r second (
        again _ (
          ap (λ x. descriptors P x.1) (sym first)
          ∙ (session_request-Keeps P (descriptors P) (descriptors-IsOutside P) socket_ptr
                header).kept
              v))
  on_receive-Ending socket_ptr m_pheader eof v w r h =
      ended socket_ptr v
        (record v {
          evaluator = record v.evaluator { m_map = erase socket_ptr v.evaluator.m_map };
          closed = socket_ptr ∷ v.closed;
        })
        w none r h
        (removed (
          ap (λ ks. (ks, v.watched, socket_ptr ∷ v.closed))
            (keys-erase socket_ptr v.evaluator.m_map)))
  on_receive-Ending socket_ptr m_pheader operation_aborted v w r h =
      ended socket_ptr v v w none r h (over refl)
  on_receive-Ending socket_ptr m_pheader other_error v w r h =
      ended socket_ptr v v w none r h (over refl)

  abbrev hang_up : ℕ → List (HangUp ℕ)
  hang_up socket_ptr = close socket_ptr ∷ []

  hang_up_all-closes :
      (fds : List ℕ) (w : World P)
      → hang_up_all P (hang_ups hang_up fds) w
        ≡ (ok tt, record w { closed = close_all fds w.closed })
  unfolding hang_up_all
  hang_up_all-closes [] w = refl
  hang_up_all-closes (fd ∷ fds) w = hang_up_all-closes fds (record w { closed = fd ∷ w.closed })

  pub check_sockets-closes :
      (v w : World P)
      → check_sockets P v ≡ (ok tt, w)
      → let fds = drops v.evaluator.m_map in
        descriptors P w
        ≡ (unwatch_all fds (keys v.evaluator.m_map), v.watched, close_all fds v.closed)
  unfolding check_sockets check_boost
  check_sockets-closes v w h =
      let fds = drops v.evaluator.m_map in
      let (e, ks, done) = check_with-drops P hang_up v w h in
      let ends = returned (sym (hang_up_all-closes fds (record v { evaluator = e })) ∙ done) in
      ap (descriptors P) (sym ends.1) ∙ ap (λ l. (l, v.watched, close_all fds v.closed)) ks
