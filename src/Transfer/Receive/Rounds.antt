-- ===== src/Transfer/Receive/Rounds.antt =====
-- The rounds of the loop of `my_recv`.
use pick_up_the_light_server.Prelude.{
  ℕ, zero, suc, ◌+◌, ◌<◌, ◌≡◌, refl, inl, inr, [], ◌∷◌, arith, ◌==◌, Bool-cases,
}
use pick_up_the_light_server.Prelude.Int.{pos}
use pick_up_the_light_server.Outcome.{Outcome, ok}
use pick_up_the_light_server.Text.{Bytes}
use pick_up_the_light_server.Transfer.{
  eintr, eagain, other_error, Received, got, recv_failed, Flags, Sockets, Filled, received,
  recv_loop, my_recv,
}
use pick_up_the_light_server.Transfer.Receive.{IsStream}

-- With more rounds than bytes left and interrupts to come the loop ends.
module _ (S : Sockets) (I : IsStream S) (fd : ℕ) (flags : Flags) (len : ℕ) where
  open S use {Net, recv}
  open I use {interrupts, recv_got, recv_interrupted, recv_refused}

  abbrev Ends : Outcome Filled × Net → Type 0
  Ends result = (f : Filled) × (net' : Net) × (result ≡ (ok f, net'))

  module _ (bytes_left : ℕ) (buf : Bytes) (before net : Net)
      (again : ℕ → Bytes → S.Net → Outcome Filled × S.Net)
      (later : (n : ℕ) (b : Bytes)
        → n + I.interrupts net < bytes_left + I.interrupts before
        → Ends (again n b net))
      (some_left : 0 < bytes_left) where
    received-Ends :
        (r : Received)
        → recv fd bytes_left flags before ≡ (r, net)
        → Ends (received len bytes_left buf again r net)
    unfolding received
    received-Ends (recv_failed eintr) e =
        later bytes_left buf (omega (arith, recv_interrupted fd bytes_left flags before net e))
    received-Ends (recv_failed eagain) e = (_, _, refl)
    received-Ends (recv_failed other_error) e = (_, _, refl)
    received-Ends (got []) e = (_, _, refl)
    received-Ends (got (b ∷ bs)) e =
        let (fits, split, fewer) = recv_got fd bytes_left flags before net (b ∷ bs) e in
        later _ _ (omega arith)

  recv_loop-Ends :
      (rounds bytes_left : ℕ) (buf : Bytes) (net : Net)
      → bytes_left + interrupts net < rounds
      → Ends (recv_loop S fd flags len rounds bytes_left buf net)
  unfolding recv_loop
  recv_loop-Ends zero bytes_left buf net h = elim h [ ]
  recv_loop-Ends (suc rounds) bytes_left buf net h = elim (Bool-cases (bytes_left == 0)) [
    | inl none_left ↦ rw (none_left, recv_loop) (_, _, refl)
    | inr more ↦
        let (r, next) = recv fd bytes_left flags net in
        rw (more, recv_loop)
          (received-Ends bytes_left buf net next (recv_loop S fd flags len rounds)
            (λ n b fewer. recv_loop-Ends rounds n b next (omega arith)) (ground arith) r refl)
  ]

module _ (S : Sockets) (I : IsStream S) where
  -- `my_recv` returns within any number of rounds above the bytes asked for and the signals to come.
  pub my_recv-ends :
      (rounds fd len : ℕ) (flags : Flags) (net : S.Net)
      → len + I.interrupts net < rounds
      → (f : Filled) × (net' : S.Net) × (my_recv S rounds fd (pos len) flags net ≡ (ok f, net'))
  unfolding my_recv
  my_recv-ends rounds fd len flags net h = recv_loop-Ends S I fd flags len rounds len [] net h
