-- ===== src/Snowflake/Ends.antt =====
-- How a call of `nextId` ends.
use Prim.Native.Nat.{bit_and}
use pick_up_the_light_server.Prelude.{
  ℕ, zero, suc, ◌+◌, ◌≤◌, ◌<◌, ◌≡◌, refl, inl, inr, false, ltb, leb, ◌==◌, arith, Bool-cases, subst,
}
use pick_up_the_light_server.Outcome.{Outcome, Exception, ok, throws, runtime_error}
use pick_up_the_light_server.Snowflake.{
  IdWorker, u32, u64, sequence_mask, spin, til_next_millis, same_millis, advance, next_id,
}
use pick_up_the_light_server.Snowflake.Calls.{StaysInEra}

module _ (reading : ℕ → ℕ) (rounds : ℕ) where
  -- The clock went back: `nextId` throws, and changes neither the sequence nor the last time.
  pub next_id_backwards :
      (w : IdWorker)
      → u64 (reading w.reads) < w.last_timestamp
      → next_id reading rounds w ≡ (throws runtime_error, record w { reads = suc w.reads })
  unfolding next_id
  next_id_backwards w back = ground arith

-- A call that does not throw.
abbrev DoesNotThrow {ℓ} : {A : Type ℓ} → Outcome A → Type 0
DoesNotThrow (throws e) = ⊥
DoesNotThrow _ = Unit

module _ (reading : ℕ → ℕ) where
  spin-DoesNotThrow :
      (rounds last timestamp : ℕ) (w : IdWorker)
      → DoesNotThrow (spin reading rounds last timestamp w).0
  unfolding spin
  spin-DoesNotThrow zero last timestamp w = ground arith
  spin-DoesNotThrow (suc rounds) last timestamp w = ground (
    arith,
    spin-DoesNotThrow rounds last (u64 (reading w.reads)) (record w { reads = suc w.reads }),
  )

  advance-DoesNotThrow :
      (rounds timestamp : ℕ) (w : IdWorker) → DoesNotThrow (advance reading rounds timestamp w).0
  unfolding advance til_next_millis
  advance-DoesNotThrow rounds timestamp w =
      let next = record w { sequence = bit_and (u32 (w.sequence + 1)) sequence_mask } in
      let read = record next { reads = suc w.reads } in
      ground (arith, spin-DoesNotThrow rounds w.last_timestamp (u64 (reading w.reads)) read)

  -- A call that throws leaves everything but the clock's position.
  pub next_id_throws :
      (rounds : ℕ) (w w' : IdWorker) {e : Exception}
      → next_id reading rounds w ≡ (throws e, w')
      → w' ≡ record w { reads = suc w.reads }
  unfolding next_id
  next_id_throws rounds w w' h =
      let v = record w { reads = suc w.reads } in
      ground (arith, advance-DoesNotThrow rounds (u64 (reading w.reads)) v)

module _ (reading : ℕ → ℕ) where
  spin_past :
      (rounds last timestamp : ℕ) (w : IdWorker)
      → last < timestamp
      → spin reading rounds last timestamp w ≡ (ok timestamp, w)
  unfolding spin
  spin_past zero last timestamp w h = ground arith
  spin_past (suc rounds) last timestamp w h = ground arith

module _ (reading : ℕ → ℕ) (era : StaysInEra reading) where
  -- A reading past `last` at position `i`, seen from the same position written otherwise.
  reading_at : (last i j : ℕ) → last < reading i → i ≡ j → last < u64 (reading j)
  reading_at last i j h e =
      let there : last < reading j = subst (λ n. last < reading n) e h in omega (arith, era j)

  -- The wait ends once a reading within the rounds followed is past the last time.
  spin-ends :
      (rounds last timestamp k : ℕ) (w : IdWorker)
      → k < rounds
      → last < reading (w.reads + k)
      → (t : ℕ) × (v : IdWorker) × (spin reading rounds last timestamp w ≡ (ok t, v))
  unfolding spin
  spin-ends zero last timestamp k w h late = elim h [ ]
  spin-ends (suc rounds) last timestamp zero w h late =
      let now : ℕ = u64 (reading w.reads) in
      let v = record w { reads = suc w.reads } in
      elim (Bool-cases (leb timestamp last)) [
        | inl waits ↦
            rw (waits, spin)
              (
                now,
                v,
                spin_past reading rounds last now v (reading_at last _ w.reads late (omega arith)),
              )
        | inr past ↦ rw (past, spin) (timestamp, w, refl)
      ]
  spin-ends (suc rounds) last timestamp (suc k) w h late =
      let now : ℕ = u64 (reading w.reads) in
      let v = record w { reads = suc w.reads } in
      elim (Bool-cases (leb timestamp last)) [
        | inl waits ↦
            rw (waits, spin)
              (spin-ends rounds last now k v (omega arith)
                (subst (λ n. last < reading n) (omega arith) late))
        | inr past ↦ rw (past, spin) (timestamp, w, refl)
      ]

  til_next_millis-ends :
      (rounds last k : ℕ) (w : IdWorker)
      → k ≤ rounds
      → last < reading (w.reads + k)
      → (t : ℕ) × (v : IdWorker) × (til_next_millis reading rounds last w ≡ (ok t, v))
  unfolding til_next_millis
  til_next_millis-ends rounds last zero w h late =
      let v = record w { reads = suc w.reads } in
      (
        u64 (reading w.reads),
        v,
        spin_past reading rounds last _ v (reading_at last _ w.reads late (omega arith)),
      )
  til_next_millis-ends rounds last (suc k) w h late =
      spin-ends rounds last (u64 (reading w.reads)) k (record w { reads = suc w.reads }) h
        (subst (λ n. last < reading n) (omega arith) late)

  module _ (rounds k : ℕ) (fits : k ≤ rounds) where
    same_millis-ends :
        (timestamp : ℕ) (w : IdWorker)
        → w.last_timestamp < reading (w.reads + k)
        → (id : ℕ) × (v : IdWorker) × (same_millis reading rounds timestamp w ≡ (ok id, v))
    unfolding same_millis
    same_millis-ends timestamp w late =
        let next = record w { sequence = bit_and (u32 (w.sequence + 1)) sequence_mask } in
        elim (Bool-cases (0 == next.sequence)) [
          | inl wraps ↦
              let (t, v, e) = til_next_millis-ends rounds w.last_timestamp k next fits late in
              rw (wraps, same_millis, e) (_, _, refl)
          | inr runs ↦ rw (runs, same_millis) (_, _, refl)
        ]

    -- If the clock has not gone back, and some reading within the rounds followed is past the last
    -- time, `nextId` returns an id.
    pub next_id-ends :
        (w : IdWorker)
        → w.last_timestamp ≤ u64 (reading w.reads)
        → w.last_timestamp < reading (w.reads + 1 + k)
        → (id : ℕ) × (v : IdWorker) × (next_id reading rounds w ≡ (ok id, v))
    unfolding next_id
    next_id-ends w on late =
        let now : ℕ = u64 (reading w.reads) in
        let v = record w { reads = suc w.reads } in
        let read : ltb now w.last_timestamp ≡ false = ground arith in
        elim (Bool-cases (w.last_timestamp == now)) [
          | inl same ↦
              rw (read, same, advance)
                (same_millis-ends now v
                  (subst (λ n. w.last_timestamp < reading n) (omega arith) late))
          | inr other ↦ rw (read, other, advance) (_, _, refl)
        ]
