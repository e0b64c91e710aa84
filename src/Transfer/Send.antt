-- ===== src/Transfer/Send.antt =====
-- `my_send` over a socket that keeps the order of its bytes.
use pick_up_the_light_server.Prelude.{
  ℕ, zero, suc, ◌+◌, ◌-◌, ◌≤◌, ◌<◌, ◌≡◌, refl, sym, ap, ◌∙◌, ◌⊎◌, inl, inr, [], ◌++◌, arith, length,
  length-append, length-drop, take, drop, take-append-drop, append_assoc, append-nil, ◌==◌,
  Bool-cases,
}
use pick_up_the_light_server.Prelude.Int.{ℤ, pos, minus_one}
use pick_up_the_light_server.Outcome.{Outcome, ok, returned}
use pick_up_the_light_server.Text.{Bytes}
use pick_up_the_light_server.Transfer.{
  Errno, eintr, eagain, other_error, Sent, put, send_failed, Sockets, sent, send_loop, my_send,
}

-- What the kernel documents of `send`. `delivered` are the bytes that it has accepted for a
-- connection, in order; `breaks` bounds the calls that signals break.
pub record IsSink (S : Sockets) : Type 0 where
  pub delivered : ℕ → S.Net → Bytes
  pub breaks : S.Net → ℕ
  pub send_put :
      (fd : ℕ) (bs : Bytes) (net net' : S.Net) (n : ℕ)
      → S.send fd bs net ≡ (put n, net')
      → (n ≤ length bs)
        × (delivered fd net' ≡ delivered fd net ++ take n bs)
        × (breaks net' ≤ breaks net)
  pub send_refused :
      (fd : ℕ) (bs : Bytes) (net net' : S.Net) (e : Errno)
      → S.send fd bs net ≡ (send_failed e, net')
      → delivered fd net' ≡ delivered fd net
  pub send_interrupted :
      (fd : ℕ) (bs : Bytes) (net net' : S.Net)
      → S.send fd bs net ≡ (send_failed eintr, net')
      → breaks net' < breaks net

module _ (S : Sockets) (I : IsSink S) (fd : ℕ) where
  open S use {Net, send}
  open I use {delivered, breaks, send_put, send_refused, send_interrupted}

  -- A call that returns has delivered the front of the buffer; its value is -1 or the length of
  -- that front.
  pub record Delivers (buf : Bytes) (net net' : Net) (r : ℤ) : Type 0 where
    pub front : Bytes
    pub rest : Bytes
    pub split : buf ≡ front ++ rest
    pub arrived : delivered fd net' ≡ delivered fd net ++ front
    pub counted : (r ≡ minus_one) ⊎ (r ≡ pos (length front))

  record Sofar (buf rest : Bytes) (start net : Net) : Type 0 where
    pub front : Bytes
    pub split : buf ≡ front ++ rest
    pub arrived : delivered fd net ≡ delivered fd start ++ front

  module _ (buf : Bytes) (start net' : Net) (r : ℤ) where
    stops :
        (rest : Bytes) (net : Net)
        → Sofar buf rest start net
        → ◌≡◌ {A = Outcome ℤ × Net} (ok (pos (length buf - length rest)), net) (ok r, net')
        → Delivers buf start net' r
    stops rest net so h =
        let (a, b) = returned h in
        rw (← a, ← b)
          (record {
            front = so.front;
            rest = rest;
            split = so.split;
            arrived = so.arrived;
            counted = inr (ap pos (omega (arith, ap length so.split, length-append so.front rest)));
          })

    fails :
        (rest : Bytes) (net : Net)
        → Sofar buf rest start net
        → ◌≡◌ {A = Outcome ℤ × Net} (ok minus_one, net) (ok r, net')
        → Delivers buf start net' r
    fails rest net so h =
        let (a, b) = returned h in
        rw (← a, ← b)
          (record {
            front = so.front;
            rest = rest;
            split = so.split;
            arrived = so.arrived;
            counted = inl refl;
          })

    module _ (rest : Bytes) (before net : Net) (again : Bytes → S.Net → Outcome ℤ × S.Net)
        (so : Sofar buf rest start before)
        (later : (more : Bytes)
          → Sofar buf more start net
          → again more net ≡ (ok r, net')
          → Delivers buf start net' r) where
      refused : (x : Errno) → send fd rest before ≡ (send_failed x, net) → Sofar buf rest start net
      refused x e = record {
        front = so.front;
        split = so.split;
        arrived = rw (send_refused fd rest before net x e) so.arrived;
      }

      moved : (n : ℕ) → send fd rest before ≡ (put n, net) → Sofar buf (drop n rest) start net
      moved n e = record {
        front = so.front ++ take n rest;
        split = simp (append_assoc, take-append-drop) so.split;
        arrived =
            rw ((send_put fd rest before net n e).1, so.arrived)
              (append_assoc (delivered fd start) so.front (take n rest));
      }

      none_moved : send fd rest before ≡ (put 0, net) → Sofar buf rest start net
      none_moved e = record {
        front = so.front;
        split = so.split;
        arrived =
            (send_put fd rest before net 0 e).1 ∙ append-nil (delivered fd before) ∙ so.arrived;
      }

      sent-Delivers :
          (x : Sent)
          → send fd rest before ≡ (x, net)
          → sent (length buf) rest again x net ≡ (ok r, net')
          → Delivers buf start net' r
      unfolding sent
      sent-Delivers (send_failed eintr) e h = later rest (refused eintr e) h
      sent-Delivers (send_failed eagain) e h = fails rest net (refused eagain e) h
      sent-Delivers (send_failed other_error) e h = fails rest net (refused other_error e) h
      sent-Delivers (put zero) e h = stops rest net (none_moved e) h
      sent-Delivers (put (suc n)) e h = later _ (moved (suc n) e) h

  send_loop-Delivers :
      (buf : Bytes) (rounds : ℕ) (rest : Bytes) (start net net' : Net) (r : ℤ)
      → Sofar buf rest start net
      → send_loop S fd (length buf) rounds rest net ≡ (ok r, net')
      → Delivers buf start net' r
  unfolding send_loop
  send_loop-Delivers buf zero rest start net net' r so h = elim (Bool-cases (length rest == 0)) [
    | inl none_left ↦ stops buf start net' r rest net so (rw (none_left, send_loop) at h)
    | inr more ↦ absurd (ground arith)
  ]
  send_loop-Delivers buf (suc rounds) rest start net net' r so h =
      elim (Bool-cases (length rest == 0)) [
        | inl none_left ↦ stops buf start net' r rest net so (rw (none_left, send_loop) at h)
        | inr more ↦
            let (x, next) = send fd rest net in
            sent-Delivers buf start net' r rest net next (send_loop S fd (length buf) rounds) so
              (λ m so' h'. send_loop-Delivers buf rounds m start next net' r so' h') x refl
              (rw (more, send_loop) at h)
      ]

module _ (S : Sockets) (I : IsSink S) where
  -- Whatever `my_send` returns, the peer's stream has grown by a prefix of the buffer and by nothing
  -- else; the value is -1 or the length of that prefix.
  pub my_send-Delivers :
      (rounds fd : ℕ) (buf : Bytes) (net net' : S.Net) (r : ℤ)
      → my_send S rounds fd buf net ≡ (ok r, net')
      → Delivers S I fd buf net net' r
  unfolding my_send
  my_send-Delivers rounds fd buf net net' r h =
      send_loop-Delivers S I fd buf rounds buf net net net' r
        (record { front = []; split = refl; arrived = sym (append-nil (I.delivered fd net)) }) h

  abbrev Ends : Outcome ℤ × S.Net → Type 0
  Ends result = (r : ℤ) × (net' : S.Net) × (result ≡ (ok r, net'))

  module _ (fd len : ℕ) (rest : Bytes) (before net : S.Net)
      (again : Bytes → S.Net → Outcome ℤ × S.Net)
      (later : (more : Bytes)
        → length more + I.breaks net < length rest + I.breaks before
        → Ends (again more net))
      (some_left : 0 < length rest) where
    sent-Ends : (x : Sent) → S.send fd rest before ≡ (x, net) → Ends (sent len rest again x net)
    unfolding sent
    sent-Ends (send_failed eintr) e =
        later rest (omega (arith, I.send_interrupted fd rest before net e))
    sent-Ends (send_failed eagain) e = (_, _, refl)
    sent-Ends (send_failed other_error) e = (_, _, refl)
    sent-Ends (put zero) e = (_, _, refl)
    sent-Ends (put (suc n)) e =
        let (fits, grown, fewer) = I.send_put fd rest before net (suc n) e in
        later _ (omega (arith, length-drop (suc n) rest, fits, fewer, some_left))

  send_loop-Ends :
      (fd len rounds : ℕ) (rest : Bytes) (net : S.Net)
      → length rest + I.breaks net < rounds
      → Ends (send_loop S fd len rounds rest net)
  unfolding send_loop
  send_loop-Ends fd len zero rest net h = elim h [ ]
  send_loop-Ends fd len (suc rounds) rest net h = elim (Bool-cases (length rest == 0)) [
    | inl none_left ↦ rw (none_left, send_loop) (_, _, refl)
    | inr more ↦
        let (x, next) = S.send fd rest net in
        rw (more, send_loop)
          (sent-Ends fd len rest net next (send_loop S fd len rounds)
            (λ m fewer. send_loop-Ends fd len rounds m next (omega arith)) (ground arith) x refl)
  ]

  -- `my_send` returns within any number of rounds above the bytes to send and the signals to come.
  pub my_send-ends :
      (rounds fd : ℕ) (buf : Bytes) (net : S.Net)
      → length buf + I.breaks net < rounds
      → (r : ℤ) × (net' : S.Net) × (my_send S rounds fd buf net ≡ (ok r, net'))
  unfolding my_send
  my_send-ends rounds fd buf net h = send_loop-Ends fd (length buf) rounds buf net h
