-- ===== src/Transfer.antt =====
-- config.cpp: `my_recv` and `my_send`, which repeat the system call until the whole length is
-- moved. The system calls are a parameter: what the kernel's sockets do.
pub mod Receive
pub mod Send
pub mod Pipe
pub mod AtOnce
mod Tests
use pick_up_the_light_server.Prelude.{
  ℕ, zero, suc, ◌-◌, ◌==◌, true, false, List, [], ◌∷◌, ◌++◌, length, drop, if◌then◌else◌,
}
use pick_up_the_light_server.Prelude.Int.{ℤ, pos, negsuc, minus_one}
use pick_up_the_light_server.Outcome.{ok, waiting, Exec, pure}
use pick_up_the_light_server.Text.{Bytes}

-- The values of `errno` that the code tells apart.
pub data Errno : Type 0 where
  eintr eagain other_error : Errno

-- `recv`: the bytes, of which there are none when the peer has closed; or -1.
pub data Received : Type 0 where
  got : Bytes → Received
  recv_failed : Errno → Received

pub data Sent : Type 0 where
  put : ℕ → Sent
  send_failed : Errno → Sent

-- Blocking, or `MSG_DONTWAIT`.
pub data Flags : Type 0 where
  blocking dont_wait : Flags

-- `recv fd max flags` and `send fd buf` on the state of the kernel's sockets.
pub record Sockets : Type 1 where
  pub Net : Type 0
  pub recv : ℕ → ℕ → Flags → Net → Received × Net
  pub send : ℕ → Bytes → Net → Sent × Net

-- The value of a call of `my_recv`, with the bytes that it put into the buffer.
pub record Filled : Type 0 where
  pub ret : ℤ
  pub buf : Bytes

-- The body of the loop of `my_recv` behind the system call: `again` goes round once more, with the
-- bytes left and the buffer filled so far.
received :
    {Net : Type 0}
    → (len bytes_left : ℕ) (buf : Bytes) (again : ℕ → Bytes → Exec Net Filled) → Received
    → Exec Net Filled
received len bytes_left buf again (recv_failed eintr) = again bytes_left buf
received len bytes_left buf again (recv_failed eagain) =
    pure (record { ret = minus_one; buf = buf })
received len bytes_left buf again (recv_failed other_error) =
    pure (record { ret = minus_one; buf = buf })
received len bytes_left buf again (got []) =
    pure (record { ret = pos (len - bytes_left); buf = buf })
received len bytes_left buf again (got (b ∷ bs)) =
    again (bytes_left - length (b ∷ bs)) (buf ++ b ∷ bs)

-- The same for `my_send`.
sent : {Net : Type 0} → (len : ℕ) (rest : Bytes) (again : Bytes → Exec Net ℤ) → Sent → Exec Net ℤ
sent len rest again (send_failed eintr) = again rest
sent len rest again (send_failed eagain) = pure minus_one
sent len rest again (send_failed other_error) = pure minus_one
sent len rest again (put zero) = pure (pos (len - length rest))
sent len rest again (put (suc n)) = again (drop (suc n) rest)

module _ (S : Sockets) where
  open S use {Net, recv, send}

  -- The loop, followed for `rounds` rounds. The buffer is filled from the left; `bytes_left` of
  -- `len` are missing.
  recv_loop : ℕ → Flags → ℕ → ℕ → ℕ → Bytes → Exec Net Filled
  unfolding received
  recv_loop fd flags len zero bytes_left buf net =
      if bytes_left == 0
      then (ok (record { ret = pos (len - bytes_left); buf = buf }), net)
      else (waiting, net)
  recv_loop fd flags len (suc rounds) bytes_left buf net = elim (bytes_left == 0) [
    | true ↦ (ok (record { ret = pos (len - bytes_left); buf = buf }), net)
    | false ↦
        let (r, net') = recv fd bytes_left flags net in
        received len bytes_left buf (recv_loop fd flags len rounds) r net'
  ]

  -- A negative length makes the loop end at once, with the value 0.
  unfoldable pub my_recv : ℕ → ℕ → ℤ → Flags → Exec Net Filled
  unfolding recv_loop
  my_recv rounds fd (pos len) flags net = recv_loop fd flags len rounds len [] net
  my_recv rounds fd (negsuc n) flags net = (ok (record { ret = pos 0; buf = [] }), net)

  send_loop : ℕ → ℕ → ℕ → Bytes → Exec Net ℤ
  unfolding sent
  send_loop fd len zero rest net =
      if length rest == 0 then (ok (pos (len - length rest)), net) else (waiting, net)
  send_loop fd len (suc rounds) rest net = elim (length rest == 0) [
    | true ↦ (ok (pos (len - length rest)), net)
    | false ↦ let (r, net') = send fd rest net in sent len rest (send_loop fd len rounds) r net'
  ]

  -- `my_send(fd, buf, length, 0)` for the whole of a buffer.
  unfoldable pub my_send : ℕ → ℕ → Bytes → Exec Net ℤ
  unfolding send_loop
  my_send rounds fd buf = send_loop fd (length buf) rounds buf
