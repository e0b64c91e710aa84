-- ===== src/Transfer/Receive.antt =====
-- `my_recv` over a socket that keeps the order of its bytes.
pub mod Rounds
use pick_up_the_light_server.Prelude.{
  ℕ, zero, suc, ◌+◌, ◌-◌, ◌≤◌, ◌<◌, ◌≡◌, refl, sym, ap, ◌∙◌, ◌⊎◌, inl, inr, [], ◌∷◌, ◌++◌, arith,
  length, length-append, append_assoc, ◌==◌, Bool-cases,
}
use pick_up_the_light_server.Prelude.Int.{pos, minus_one}
use pick_up_the_light_server.Outcome.{Outcome, ok, returned}
use pick_up_the_light_server.Text.{Bytes}
use pick_up_the_light_server.Transfer.{
  Errno, eintr, eagain, other_error, Received, got, recv_failed, Flags, Sockets, Filled, received,
  recv_loop, my_recv,
}

-- What the kernel documents of `recv`. `pending` are the bytes of a connection that have not been
-- read yet, now in the kernel or still to come; `interrupts` bounds the calls that signals break.
pub record IsStream (S : Sockets) : Type 0 where
  pub pending : ℕ → S.Net → Bytes
  pub interrupts : S.Net → ℕ
  pub recv_got :
      (fd n : ℕ) (flags : Flags) (net net' : S.Net) (bs : Bytes)
      → S.recv fd n flags net ≡ (got bs, net')
      → (length bs ≤ n)
        × (pending fd net ≡ bs ++ pending fd net')
        × (interrupts net' ≤ interrupts net)
  pub recv_closed :
      (fd n : ℕ) (flags : Flags) (net net' : S.Net)
      → S.recv fd n flags net ≡ (got [], net')
      → 0 < n
      → pending fd net' ≡ []
  pub recv_refused :
      (fd n : ℕ) (flags : Flags) (net net' : S.Net) (e : Errno)
      → S.recv fd n flags net ≡ (recv_failed e, net')
      → pending fd net' ≡ pending fd net
  pub recv_interrupted :
      (fd n : ℕ) (flags : Flags) (net net' : S.Net)
      → S.recv fd n flags net ≡ (recv_failed eintr, net')
      → interrupts net' < interrupts net

module _ (S : Sockets) (I : IsStream S) (fd : ℕ) (flags : Flags) where
  open S use {Net, recv}
  open I use {pending, interrupts, recv_got, recv_closed, recv_refused, recv_interrupted}

  -- What a call has read when it returns: a prefix of the stream, counted by its value unless that
  -- is -1; all of the length, or less at the end of the stream.
  pub record Reads (len : ℕ) (net net' : Net) (f : Filled) : Type 0 where
    pub prefix : pending fd net ≡ f.buf ++ pending fd net'
    pub fits : length f.buf ≤ len
    pub counted : (f.ret ≡ minus_one) ⊎ (f.ret ≡ pos (length f.buf))
    pub complete : (f.ret ≡ minus_one) ⊎ ((length f.buf ≡ len) ⊎ (pending fd net' ≡ []))

  -- The loop with `buf` already read since the state `start`.
  record Sofar (len bytes_left : ℕ) (buf : Bytes) (start net : Net) : Type 0 where
    pub taken : pending fd start ≡ buf ++ pending fd net
    pub missing : length buf + bytes_left ≡ len

  -- The end of the loop with the value of what has been read.
  done-Reads :
      (len bytes_left : ℕ) (buf : Bytes) (start net net' : Net) (f : Filled)
      → Sofar len bytes_left buf start net
      → (bytes_left ≡ 0) ⊎ (pending fd net ≡ [])
      → ◌≡◌ {A = Outcome Filled × Net}
          (ok (record { ret = pos (len - bytes_left); buf = buf }), net)
          (ok f, net')
      → Reads len start net' f
  done-Reads len bytes_left buf start net net' f so end h =
      let (a, b) = returned h in
      rw (← a, ← b)
        (record {
          prefix = so.taken;
          fits = omega (arith, so.missing);
          counted = inr (ap pos (omega (arith, so.missing)));
          complete = inr (ground (arith, so.missing, end));
        })

  failed-Reads :
      (len bytes_left : ℕ) (buf : Bytes) (start net net' : Net) (f : Filled)
      → Sofar len bytes_left buf start net
      → ◌≡◌ {A = Outcome Filled × Net}
          (ok (record { ret = minus_one; buf = buf }), net)
          (ok f, net')
      → Reads len start net' f
  failed-Reads len bytes_left buf start net net' f so h =
      let (a, b) = returned h in
      rw (← a, ← b)
        (record {
          prefix = so.taken;
          fits = omega (arith, so.missing);
          counted = inl refl;
          complete = inl refl;
        })

  module _ (len bytes_left : ℕ) (buf : Bytes) (start before net net' : Net) (f : Filled)
      (again : ℕ → Bytes → S.Net → Outcome Filled × S.Net)
      (so : Sofar len bytes_left buf start before) (some_left : 0 < bytes_left)
      (later : (n : ℕ) (b : Bytes)
        → Sofar len n b start net
        → again n b net ≡ (ok f, net')
        → Reads len start net' f) where
    refused :
        (x : Errno)
        → recv fd bytes_left flags before ≡ (recv_failed x, net)
        → Sofar len bytes_left buf start net
    refused x e = record {
      taken = rw (recv_refused fd bytes_left flags before net x e) so.taken;
      missing = so.missing;
    }

    moved :
        (bs : Bytes)
        → recv fd bytes_left flags before ≡ (got bs, net)
        → Sofar len (bytes_left - length bs) (buf ++ bs) start net
    moved bs e =
        let (fits, split, _) = recv_got fd bytes_left flags before net bs e in
        record {
          taken = so.taken ∙ ap (λ t. buf ++ t) split ∙ sym (append_assoc buf bs (pending fd net));
          missing = omega (arith, so.missing, fits, length-append buf bs);
        }

    closed : recv fd bytes_left flags before ≡ (got [], net) → Sofar len bytes_left buf start net
    closed e = record {
      taken = so.taken ∙ ap (λ t. buf ++ t) (recv_got fd bytes_left flags before net [] e).1;
      missing = so.missing;
    }

    received-Reads :
        (r : Received)
        → recv fd bytes_left flags before ≡ (r, net)
        → received len bytes_left buf again r net ≡ (ok f, net')
        → Reads len start net' f
    unfolding received
    received-Reads (recv_failed eintr) e h = later bytes_left buf (refused eintr e) h
    received-Reads (recv_failed eagain) e h =
        failed-Reads len bytes_left buf start net net' f (refused eagain e) h
    received-Reads (recv_failed other_error) e h =
        failed-Reads len bytes_left buf start net net' f (refused other_error e) h
    received-Reads (got []) e h =
        done-Reads len bytes_left buf start net net' f (closed e)
          (inr (recv_closed fd bytes_left flags before net e some_left)) h
    received-Reads (got (b ∷ bs)) e h = later _ _ (moved (b ∷ bs) e) h

  recv_loop-Reads :
      (len rounds bytes_left : ℕ) (buf : Bytes) (start net net' : Net) (f : Filled)
      → Sofar len bytes_left buf start net
      → recv_loop S fd flags len rounds bytes_left buf net ≡ (ok f, net')
      → Reads len start net' f
  unfolding recv_loop
  recv_loop-Reads len zero bytes_left buf start net net' f so h =
      elim (Bool-cases (bytes_left == 0)) [
        | inl none_left ↦
            done-Reads len bytes_left buf start net net' f so (inl (ground arith))
              (rw (none_left, recv_loop) at h)
        | inr more ↦ absurd (ground arith)
      ]
  recv_loop-Reads len (suc rounds) bytes_left buf start net net' f so h =
      elim (Bool-cases (bytes_left == 0)) [
        | inl none_left ↦
            done-Reads len bytes_left buf start net net' f so (inl (ground arith))
              (rw (none_left, recv_loop) at h)
        | inr more ↦
            let (r, next) = recv fd bytes_left flags net in
            received-Reads len bytes_left buf start net next net' f
              (recv_loop S fd flags len rounds) so (ground arith)
              (λ n b so' h'. recv_loop-Reads len rounds n b start next net' f so' h') r refl
              (rw (more, recv_loop) at h)
      ]

module _ (S : Sockets) (I : IsStream S) where
  -- Whatever `my_recv` returns, what it put into the buffer is a prefix of what was pending on the
  -- connection, the rest is still pending, and no more than the length was read. Its value is -1 or
  -- the number of bytes read; unless it is -1, either the whole length was read or the stream is at
  -- its end.
  pub my_recv-Reads :
      (rounds fd len : ℕ) (flags : Flags) (net net' : S.Net) (f : Filled)
      → my_recv S rounds fd (pos len) flags net ≡ (ok f, net')
      → Reads S I fd flags len net net' f
  unfolding my_recv
  my_recv-Reads rounds fd len flags net net' f h =
      recv_loop-Reads S I fd flags len rounds len [] net net net' f
        (record { taken = refl; missing = omega arith }) h
