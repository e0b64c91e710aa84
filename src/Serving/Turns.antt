-- ===== src/Serving/Turns.antt =====
-- What a turn of a task's loop does to the descriptors.
use pick_up_the_light_server.Prelude.{
  ℕ, zero, suc, ◌≤◌, ◌≡◌, refl, sym, ◌∙◌, ap, subst, Bool, true, false, ◌==◌, if◌then◌else◌, Option,
  none, some, ◌∷◌, arith,
}
use pick_up_the_light_server.Prelude.Int.{ℤ, pos, negsuc}
use pick_up_the_light_server.Outcome.{Outcome, ok, returned, bind-returned, pure, ◌>>◌}
use pick_up_the_light_server.Table.{number_key, lookup}
use pick_up_the_light_server.Evaluator as Table
use pick_up_the_light_server.Protocol.{NetPacketHeader, to_header, header_size}
use pick_up_the_light_server.Transfer.{Filled, dont_wait}
use pick_up_the_light_server.Platform.{Platform, World}
use pick_up_the_light_server.Epoll.{watch, unwatch, add_fd}
use pick_up_the_light_server.MyServer.{
  recv_bytes, process_single_request, disconnect, handle_header, next_request,
}
use pick_up_the_light_server.MyServer.Disconnect.{left, disconnect_case}
use pick_up_the_light_server.MyServer.Frame.{
  Descriptors, descriptors, descriptors-IsOutside, recv_bytes-Keeps,
  process_single_request-descriptors,
}
use pick_up_the_light_server.Epoll.Counts.{times, lookup-pos, keys-erase}

-- What happens to one descriptor in a step of the server.
pub data Event : Type 0 where
  quiet : Event  -- nothing
  accepted : Event  -- a client is given it
  reported : Event  -- its data starts a task
  request : Event  -- its task has read a whole header
  part : Event  -- its task has read a part of a header
  no_data : Event  -- the read of its task has failed, with EAGAIN where no data is left
  peer_gone : Event  -- its task has read the end of the stream
  silent : Event  -- a check gives it up

abbrev whole_event : Option NetPacketHeader → Event
whole_event none = part
whole_event (some h) = request

abbrev value_event : ℤ → Option NetPacketHeader → Event
value_event (negsuc n) h = no_data
value_event (pos n) h =
    if n == 0 then peer_gone else (if n == header_size then whole_event h else part)

abbrev pub header_event : Outcome Filled → Event
header_event (ok f) = value_event f.ret (to_header f.buf)
header_event _ = quiet

-- The ways in which a turn for `fd` ends that does not throw, from the descriptors `d` to `e`, by what
-- was read and by the value that tells whether the loop goes on.
pub data Turn (fd : ℕ) (d e : Descriptors) : Event → Bool → Type 0 where
  goes : e ≡ d → Turn fd d e request true
  strands : e ≡ d → Turn fd d e part false
  rearms : e ≡ (d.0, watch fd d.1, d.2) → Turn fd d e no_data false
  leaves :
      1 ≤ times fd d.0
      → e ≡ (unwatch fd d.0, unwatch fd d.1, fd ∷ d.2)
      → Turn fd d e peer_gone false

one_byte : (n : ℕ) → (suc n == 0) ≡ false
one_byte n = ground arith

module _ (P : Platform) where
  abbrev TurnOf : ℕ → World P → World P → Event → Bool → Type 0
  TurnOf fd v w event b = Turn fd (descriptors P v) (descriptors P w) event b

  -- What a turn for the descriptor would read.
  abbrev pub turn_event : ℕ → World P → Event
  turn_event fd v = header_event (recv_bytes P fd (pos header_size) dont_wait v).0

  landed :
      (fd : ℕ) (v x y : World P) (event : Event) (b c : Bool)
      → ◌≡◌ {A = Outcome Bool × World P} (ok b, x) (ok c, y)
      → TurnOf fd v x event b
      → TurnOf fd v y event c
  landed fd v x y event b c e t =
      let (same, at_end) = returned e in
      subst (λ a. TurnOf fd v y event a) same (subst (λ u. TurnOf fd v u event b) at_end t)

  disconnects :
      (fd : ℕ) (v w : World P) (b : Bool) (entry : Option Table.Info)
      → lookup fd v.evaluator.m_map ≡ entry
      → (disconnect P fd >> pure false) v ≡ (ok b, w)
      → TurnOf fd v w peer_gone b
  disconnects fd v w b none e h = absurd (ground (arith, disconnect_case P fd none v e))
  disconnects fd v w b (some info) e h =
      let (u, v', first, second) = bind-returned (disconnect P fd) (λ _. pure false) v h in
      let gone : (ok tt, left P fd info.user_id v) ≡ (ok u, v') =
        sym (disconnect_case P fd (some info) v e) ∙ first in
      landed fd v v' w peer_gone false b second (
        subst (λ x. TurnOf fd v x peer_gone false) (returned gone).1
          (leaves (lookup-pos fd info v.evaluator.m_map e) (
            ap (λ ks. (ks, unwatch fd v.watched, fd ∷ v.closed))
              (keys-erase fd v.evaluator.m_map))))

  -- A request that was read, and its handling.
  requests :
      (fd : ℕ) (h : NetPacketHeader) (v w : World P) (b : Bool)
      → (process_single_request P fd h >> pure true) v ≡ (ok b, w)
      → TurnOf fd v w request b
  requests fd h v w b e =
      let (u, v', first, second) =
        bind-returned (process_single_request P fd h) (λ _. pure true) v e in
      landed fd v v' w request true b second (
        goes
          (ap (λ r. descriptors P r.1) (sym first) ∙ process_single_request-descriptors P fd h v))

  of_event :
      (fd : ℕ) (f : Filled) (v w : World P) (b : Bool) (event : Event)
      → header_event (ok f) ≡ event
      → TurnOf fd v w event b
      → TurnOf fd v w (header_event (ok f)) b
  of_event fd f v w b event e t = subst (λ x. TurnOf fd v w x b) (sym e) t

  -- Some bytes of a header, perhaps all.
  reads :
      (fd n : ℕ) (f : Filled) (v w : World P) (b whole : Bool) (header : Option NetPacketHeader)
      → f.ret ≡ pos (suc n)
      → (suc n == header_size) ≡ whole
      → to_header f.buf ≡ header
      → handle_header P fd f v ≡ (ok b, w)
      → TurnOf fd v w (header_event (ok f)) b
  unfolding handle_header
  reads fd n f v w b false header e is hd h =
      of_event fd f v w b part (ground (arith, e, is))
        (landed fd v v w part false b (rw (e, one_byte n, is) at h) (strands refl))
  reads fd n f v w b true none e is hd h =
      of_event fd f v w b part (ground (arith, e, is, hd))
        (landed fd v v w part false b (rw (e, one_byte n, is, hd) at h) (strands refl))
  reads fd n f v w b true (some header) e is hd h =
      of_event fd f v w b request (ground (arith, e, is, hd))
        (requests fd header v w b (rw (e, one_byte n, is, hd) at h))

  handles :
      (fd : ℕ) (f : Filled) (v w : World P) (b : Bool) (ret : ℤ)
      → f.ret ≡ ret
      → handle_header P fd f v ≡ (ok b, w)
      → TurnOf fd v w (header_event (ok f)) b
  unfolding handle_header add_fd
  handles fd f v w b (negsuc n) e h = of_event fd f v w b no_data (ground (arith, e)) (
      landed fd v (record v { watched = watch fd v.watched }) w no_data false b (rw e at h)
        (rearms refl))
  handles fd f v w b (pos zero) e h =
      of_event fd f v w b peer_gone (ground (arith, e))
        (disconnects fd v w b (lookup fd v.evaluator.m_map) refl (rw e at h))
  handles fd f v w b (pos (suc n)) e h =
      reads fd n f v w b (suc n == header_size) (to_header f.buf) e refl refl h

  -- A turn that does not throw goes on, or ends in one of three ways: the descriptor is in epoll
  -- again, or the connection is out of the table and out of epoll and its descriptor closed, or a part
  -- of a header was read and nothing is done.
  pub next_request-Turn :
      (fd : ℕ) (v w : World P) (b : Bool)
      → next_request P fd v ≡ (ok b, w)
      → TurnOf fd v w (turn_event fd v) b
  unfolding next_request
  next_request-Turn fd v w b h =
      let (f, u, first, second) =
        bind-returned (recv_bytes P fd (pos header_size) dont_wait) (handle_header P fd) v h in
      let event = header_event (ok f) in
      subst (λ x. TurnOf fd v w x b) (ap (λ r. header_event r.0) (sym first))
        (subst (λ d. Turn fd d (descriptors P w) event b)
          (ap (λ r. descriptors P r.1) (sym first)
            ∙ (recv_bytes-Keeps P (descriptors P) (descriptors-IsOutside P) fd (pos header_size)
                  dont_wait).kept
                v)
          (handles fd f u w b f.ret refl second))
