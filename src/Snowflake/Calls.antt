-- ===== src/Snowflake/Calls.antt =====
-- One call of `nextId` that returns.
use Prim.Native.Nat.{bit_and}
use pick_up_the_light_server.Prelude.{
  ℕ, zero, suc, ◌+◌, ◌%◌, ◌^◌, ◌≤◌, ◌<◌, ◌≡◌, refl, ◌⊎◌, inl, inr, ltb, ◌==◌, arith, Bool-cases,
}
use pick_up_the_light_server.Prelude.Bits.{bit_and-mask}
use pick_up_the_light_server.Outcome.{ok, returned, bind-returned}
use pick_up_the_light_server.Snowflake.{
  IdWorker, u32, u64, sequence_mask, compose, spin, til_next_millis, finish, same_millis, advance,
  next_id,
}
use pick_up_the_light_server.Snowflake.Compose.{IsInEra, IsConfigured}

-- The sequence number runs through its twelve bits and starts again at 0.
pub next_sequence : (s : ℕ) → s < 2 ^ 12 → bit_and (u32 (s + 1)) sequence_mask ≡ (s + 1) % 2 ^ 12
next_sequence s h = omega (arith, bit_and-mask 12 (u32 (s + 1)))

-- Only the position in the clock's readings differs.
abbrev pub SameButReads : IdWorker → IdWorker → Type 0
SameButReads w w' =
    (w'.worker_id ≡ w.worker_id)
    × (w'.datacenter_id ≡ w.datacenter_id)
    × (w'.sequence ≡ w.sequence)
    × (w'.last_timestamp ≡ w.last_timestamp)

-- What a call that returns has done: `id` is made of the new state, whose time is in the era and
-- is later than before, or the same with a higher sequence number.
pub record Issued (w w' : IdWorker) (id : ℕ) : Type 0 where
  pub composed : id ≡ compose w'.last_timestamp w'
  pub worker : w'.worker_id ≡ w.worker_id
  pub datacenter : w'.datacenter_id ≡ w.datacenter_id
  pub sequenced : w'.sequence < 2 ^ 12
  pub in_era : IsInEra w'.last_timestamp
  pub later :
      (w.last_timestamp < w'.last_timestamp)
      ⊎ ((w.last_timestamp ≡ w'.last_timestamp) × (w.sequence < w'.sequence))

pub wrap-IsInEra : (t : ℕ) → IsInEra t → IsInEra (u64 t)
wrap-IsInEra t e = omega arith

-- The clock never leaves the era of the generator.
abbrev pub StaysInEra : (ℕ → ℕ) → Type 0
StaysInEra reading = (k : ℕ) → IsInEra (reading k)

module _ (reading : ℕ → ℕ) (era : StaysInEra reading) where
  pub spin-later :
      (rounds last timestamp : ℕ) (w w' : IdWorker) (t : ℕ)
      → IsInEra timestamp
      → spin reading rounds last timestamp w ≡ (ok t, w')
      → (last < t) × IsInEra t × SameButReads w w'
  unfolding spin
  spin-later zero last timestamp w w' t e h = ground arith
  spin-later (suc rounds) last timestamp w w' t e h = ground (
    arith,
    spin-later rounds last (u64 (reading w.reads)) (record w { reads = suc w.reads }) w' t
        (wrap-IsInEra _ (era w.reads)),
  )

  pub til_next_millis-later :
      (rounds last : ℕ) (w w' : IdWorker) (t : ℕ)
      → til_next_millis reading rounds last w ≡ (ok t, w')
      → (last < t) × IsInEra t × SameButReads w w'
  unfolding til_next_millis
  til_next_millis-later rounds last w w' t h =
      spin-later rounds last (u64 (reading w.reads)) (record w { reads = suc w.reads }) w' t
        (wrap-IsInEra _ (era w.reads)) h

  module _ (rounds : ℕ) where
    finish-Issued :
        (timestamp : ℕ) (w v w' : IdWorker) {id : ℕ}
        → IsInEra timestamp
        → finish reading rounds timestamp v ≡ (ok id, w')
        → (v.worker_id ≡ w.worker_id) × (v.datacenter_id ≡ w.datacenter_id) × (v.sequence < 2 ^ 12)
        → (w.last_timestamp < timestamp)
          ⊎ ((w.last_timestamp ≡ timestamp) × (w.sequence < v.sequence))
        → Issued w w' id
    unfolding finish
    finish-Issued timestamp w v w' e h same later =
        let (a, b) = returned h in
        rw (← a, ← b)
          (record {
            composed = refl;
            worker = same.0;
            datacenter = same.1;
            sequenced = same.2;
            in_era = e;
            later = later;
          })

    same_millis-Issued :
        (timestamp : ℕ) (w w' : IdWorker) {id : ℕ}
        → IsConfigured w
        → IsInEra timestamp
        → w.last_timestamp ≡ timestamp
        → same_millis reading rounds timestamp w ≡ (ok id, w')
        → Issued w w' id
    unfolding same_millis
    same_millis-Issued timestamp w w' c e same h =
        let next = record w { sequence = bit_and (u32 (w.sequence + 1)) sequence_mask } in
        elim (Bool-cases (0 == bit_and (u32 (w.sequence + 1)) sequence_mask)) [
          | inl wraps ↦
              let (t, v, spun, done) =
                bind-returned (til_next_millis reading rounds w.last_timestamp)
                  (finish reading rounds) next (rw (wraps, same_millis) at h) in
              let (late, at, kept) = til_next_millis-later rounds w.last_timestamp next v t spun in
              finish-Issued t w v w' at done (ground (arith, next_sequence w.sequence c.sequenced))
                (inl late)
          | inr runs ↦
              finish-Issued timestamp w next w' e (rw (runs, same_millis) at h)
                (ground (arith, next_sequence w.sequence c.sequenced))
                (ground (arith, next_sequence w.sequence c.sequenced))
        ]

    advance-Issued :
        (timestamp : ℕ) (w w' : IdWorker) {id : ℕ}
        → IsConfigured w
        → IsInEra timestamp
        → w.last_timestamp ≤ timestamp
        → advance reading rounds timestamp w ≡ (ok id, w')
        → Issued w w' id
    unfolding advance
    advance-Issued timestamp w w' c e le h = elim (Bool-cases (w.last_timestamp == timestamp)) [
      | inl same ↦ same_millis-Issued timestamp w w' c e (ground arith) (rw (same, advance) at h)
      | inr other ↦
          finish-Issued timestamp w (record w { sequence = 0 }) w' e (rw (other, advance) at h)
            (omega arith) (ground arith)
    ]

    -- Whatever the clock reads within the era, also backwards: a call of a configured generator that
    -- returns has an id made of its new state, on the same machine, at a later time than before or
    -- at the same time with a higher sequence number.
    pub next_id-Issued :
        (w w' : IdWorker) {id : ℕ}
        → IsConfigured w
        → next_id reading rounds w ≡ (ok id, w')
        → Issued w w' id
    unfolding next_id
    next_id-Issued w w' {id} c h =
        let v = record w { reads = suc w.reads } in
        let time : ℕ = u64 (reading w.reads) in
        elim (Bool-cases (ltb time w.last_timestamp)) [
          | inl back ↦ absurd (ground arith)
          | inr on ↦
              let moved : Issued v w' id =
                advance-Issued time v w' (omega arith) (wrap-IsInEra _ (era w.reads)) (ground arith)
                  (rw (on, next_id) at h) in
              record {
                composed = moved.composed;
                worker = moved.worker;
                datacenter = moved.datacenter;
                sequenced = moved.sequenced;
                in_era = moved.in_era;
                later = moved.later;
              }
        ]
