-- ===== src/Snowflake/Compose.antt =====
-- The layout of an id: what the shifts and the `|` of `nextId` build.
use Prim.Native.Nat.{bit_or}
use pick_up_the_light_server.Prelude.{
  ℕ, ◌+◌, ◌-◌, ◌*◌, ◌/◌, ◌%◌, ◌^◌, ◌≤◌, ◌<◌, ◌≡◌, sym, ◌∙◌, arith,
}
use pick_up_the_light_server.Prelude.Bits.{bit_or-shift}
use pick_up_the_light_server.Snowflake.{
  IdWorker, u32, u64, twepoch, compose, set_worker_id, set_datacenter_id,
}

-- The ids of the machine fit their five bits, and the sequence its twelve.
pub record IsConfigured (w : IdWorker) : Type 0 where
  pub worker : w.worker_id < 2 ^ 5
  pub datacenter : w.datacenter_id < 2 ^ 5
  pub sequenced : w.sequence < 2 ^ 12

-- A time from the epoch of the generator on, for the 2^42 milliseconds (139 years) of the id.
pub record IsInEra (timestamp : ℕ) : Type 0 where
  pub begun : twepoch ≤ timestamp
  pub ends : timestamp < twepoch + 2 ^ 42

-- The number that the four fields stand for.
abbrev pub layout : ℕ → IdWorker → ℕ
layout timestamp w =
    (timestamp - twepoch) * 2 ^ 22 + w.datacenter_id * 2 ^ 17 + w.worker_id * 2 ^ 12 + w.sequence

pub compose-eq-layout :
    (timestamp : ℕ) (w : IdWorker)
    → IsConfigured w
    → IsInEra timestamp
    → compose timestamp w ≡ layout timestamp w
unfolding compose
compose-eq-layout timestamp w c e =
    let t : ℕ = timestamp - twepoch in
    let d : ℕ = w.datacenter_id in
    let i : ℕ = w.worker_id in
    let since : u64 (u64 (timestamp + 2 ^ 64 - twepoch) * 2 ^ 22) ≡ t * 2 ^ 22 = omega arith in
    let centre : u32 (d * 2 ^ 17) ≡ d * 2 ^ 17 = omega arith in
    let machine : u32 (i * 2 ^ 12) ≡ i * 2 ^ 12 = omega arith in
    let pair : bit_or (t * 2 ^ 22) (d * 2 ^ 17) ≡ (t * 32 + d) * 2 ^ 17 =
      omega (arith, bit_or-shift 22 t (d * 2 ^ 17) (omega arith)) in
    let triple : bit_or ((t * 32 + d) * 2 ^ 17) (i * 2 ^ 12) ≡ ((t * 32 + d) * 32 + i) * 2 ^ 12 =
      omega (arith, bit_or-shift 17 (t * 32 + d) (i * 2 ^ 12) (omega arith)) in
    rw (since, centre, machine, pair, triple)
      (omega (arith, bit_or-shift 12 ((t * 32 + d) * 32 + i) w.sequence (omega arith)))

-- The fields, taken back out of an id as a reader of the layout does.
pub record Fields (id timestamp : ℕ) (w : IdWorker) : Type 0 where
  pub time : id / 2 ^ 22 + twepoch ≡ timestamp
  pub datacenter : id / 2 ^ 17 % 2 ^ 5 ≡ w.datacenter_id
  pub worker : id / 2 ^ 12 % 2 ^ 5 ≡ w.worker_id
  pub sequence : id % 2 ^ 12 ≡ w.sequence

-- An id fits 64 bits, and each of its four fields can be read back: the time of the id, and the
-- machine and the sequence number of the generator, for every configured generator and every time
-- of the era.
pub compose-Fields :
    (timestamp : ℕ) (w : IdWorker)
    → IsConfigured w
    → IsInEra timestamp
    → (compose timestamp w < 2 ^ 64) × Fields (compose timestamp w) timestamp w
compose-Fields timestamp w c e = rw (compose-eq-layout timestamp w c e) (omega arith)

module _ (timestamp e i : ℕ) (w : IdWorker) (era : IsInEra timestamp) (he : e < 16) (hi : i < 32)
    (hs : w.sequence < 2 ^ 12) where
  compose-overlap :
      compose timestamp (record w { datacenter_id = 2 * e; worker_id = 32 + i })
      ≡ layout timestamp (record w { datacenter_id = 2 * e + 1; worker_id = i })
  unfolding compose
  compose-overlap =
      let t : ℕ = timestamp - twepoch in
      let since : u64 (u64 (timestamp + 2 ^ 64 - twepoch) * 2 ^ 22) ≡ t * 2 ^ 22 = omega arith in
      let centre : u32 (2 * e * 2 ^ 17) ≡ 2 * e * 2 ^ 17 = omega arith in
      let high : u32 ((32 + i) * 2 ^ 12) ≡ (32 + i) * 2 ^ 12 = omega arith in
      let pair : bit_or (t * 2 ^ 22) (2 * e * 2 ^ 17) ≡ (t * 16 + e) * 2 ^ 18 =
        omega (arith, bit_or-shift 22 t (2 * e * 2 ^ 17) (omega arith)) in
      let triple : bit_or ((t * 16 + e) * 2 ^ 18) ((32 + i) * 2 ^ 12)
          ≡ ((t * 32 + 2 * e + 1) * 32 + i) * 2 ^ 12 =
        omega (arith, bit_or-shift 18 (t * 16 + e) ((32 + i) * 2 ^ 12) (omega arith)) in
      rw (since, centre, high, pair, triple)
        (omega (arith, bit_or-shift 12 ((t * 32 + 2 * e + 1) * 32 + i) w.sequence (omega arith)))

  -- Nothing checks what `setWorkerId` is given. A worker id from 32 to 63 runs into the lowest bit
  -- of the datacenter id: with an even datacenter id, an id made at a time of the era is also that
  -- of the worker 32 below in the next datacenter, at the same time and sequence number.
  compose-set_worker_id :
      compose timestamp (set_worker_id (set_datacenter_id w (2 * e)) (32 + i))
      ≡ compose timestamp (set_worker_id (set_datacenter_id w (2 * e + 1)) i)
  unfolding set_worker_id set_datacenter_id
  compose-set_worker_id =
      compose-overlap
      ∙ sym (
          compose-eq-layout timestamp _
            (record { worker = hi; datacenter = omega arith; sequenced = hs }) era)
