-- ===== src/MyServer/Accept.antt =====
-- How connections come in to the server on epoll: the listening socket, and the loop that accepts.
pub mod Loop
mod Tests
use pick_up_the_light_server.Prelude.{
  ℕ, zero, suc, ◌<◌, Bool, true, false, ◌&&◌, Option, none, some, List, [], ◌∷◌, ◌++◌, ltb,
  if◌then◌else◌,
}
use pick_up_the_light_server.Prelude.Int.{ℤ, pos, negsuc, minus_one}
use pick_up_the_light_server.Outcome.{Outcome, ok, waiting, Exec, pure, lift, ◌>>=◌, ◌>>◌}
use pick_up_the_light_server.Text.{Bytes, bytes, to_string}
use pick_up_the_light_server.Table.{number_key}
use pick_up_the_light_server.Evaluator.{add}
use pick_up_the_light_server.Platform.{Platform, World, Run, on_net, on_evaluator}
use pick_up_the_light_server.Epoll.{add_fd}

-- A client that `accept` has connected: the new descriptor, and the address and port of the peer.
pub record Client : Type 0 where
  pub fd : ℕ
  pub address : Bytes
  pub port : ℕ

-- `accept` on a listening socket that does not block; `none` is -1.
abbrev pub Accept : Platform → Type 0
Accept P = ℕ → P.sockets.Net → Option Client × P.sockets.Net

-- The values of `socket`, `bind` and `listen`, of which `none` and `false` are -1.
pub record Opening : Type 0 where
  pub listen_fd : Option ℕ
  pub bound : Bool
  pub listening : Bool

unfoldable pub ip_of : Client → Bytes
unfolding bytes to_string
ip_of c = c.address ++ bytes ":" ++ to_string c.port

module _ (P : Platform) where
  -- `launch` up to its loop; `none` is an early return.
  unfoldable pub open_listener : Opening → Run P (Option ℕ)
  unfolding add_fd
  open_listener o = elim o.listen_fd [
    | none ↦ pure none
    | some fd ↦ if o.bound && o.listening then add_fd P fd >> pure (some fd) else pure none
  ]

  -- `processSingleConnect` behind `accept`. The value is the new descriptor, or -1.
  unfoldable pub welcome : Option Client → Run P ℤ
  unfolding add add_fd ip_of
  welcome none = pure minus_one
  welcome (some c) = do
    noted ← on_evaluator P (add c.fd (ip_of c))
    watched ← add_fd P c.fd
    pure (pos c.fd)

  module _ (accept : Accept P) where
    unfoldable pub process_single_connect : ℕ → Run P ℤ
    unfolding welcome
    process_single_connect listen_fd =
        on_net P (λ net. let (r, net') = accept listen_fd net in (ok r, net')) >>= welcome

    abbrev pub is_positive : ℤ → Bool
    is_positive (pos n) = ltb 0 n
    is_positive (negsuc n) = false

    abbrev pub until_none : Run P Unit → ℤ → Run P Unit
    until_none again n = if is_positive n then again else pure tt

    -- `processConnect`, followed for a number of rounds.
    unfoldable pub process_connect : ℕ → ℕ → Run P Unit
    unfolding process_single_connect
    process_connect zero listen_fd = lift waiting
    process_connect (suc rounds) listen_fd =
        process_single_connect listen_fd >>= until_none (process_connect rounds listen_fd)
