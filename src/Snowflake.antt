-- ===== src/Snowflake.antt =====
-- snowflakeidworker.h and snowflakeidworker.cpp: the generator of 64-bit ids. The mutex makes each
-- call of `nextId` one step. The clock is a parameter: `reading k` is what the call number `k` of
-- `timeGen` reads, in milliseconds.
pub mod Compose
pub mod Calls
pub mod Ends
pub mod Unique
mod Tests
use Prim.Native.Nat.{bit_and, bit_or, bit_xor}
use pick_up_the_light_server.Prelude.{
  ℕ, zero, suc, ◌+◌, ◌-◌, ◌*◌, ◌%◌, ◌^◌, true, false, ltb, leb, ◌==◌, if◌then◌else◌,
}
use pick_up_the_light_server.Outcome.{
  Outcome, ok, throws, waiting, runtime_error, Exec, ◌>>=◌, ◌>>◌, modify, gets, throw,
}

abbrev pub u32 : ℕ → ℕ
u32 n = n % 2 ^ 32

abbrev pub u64 : ℕ → ℕ
u64 n = n % 2 ^ 64

-- The constants of the class. `-1 ^ (-1 << bits)` is computed on 32 bits.
abbrev pub twepoch : ℕ
twepoch = 1_514_736_000_000

abbrev pub worker_id_bits : ℕ
worker_id_bits = 5

abbrev pub datacenter_id_bits : ℕ
datacenter_id_bits = 5

abbrev pub sequence_bits : ℕ
sequence_bits = 12

abbrev pub worker_id_shift : ℕ
worker_id_shift = sequence_bits

abbrev pub datacenter_id_shift : ℕ
datacenter_id_shift = worker_id_shift + worker_id_bits

abbrev pub timestamp_left_shift : ℕ
timestamp_left_shift = datacenter_id_shift + datacenter_id_bits

abbrev pub low_ones : ℕ → ℕ
low_ones bits = bit_xor (2 ^ 32 - 1) (u32 ((2 ^ 32 - 1) * 2 ^ bits))

abbrev pub max_worker_id : ℕ
max_worker_id = low_ones worker_id_bits

abbrev pub max_datacenter_id : ℕ
max_datacenter_id = low_ones datacenter_id_bits

abbrev pub sequence_mask : ℕ
sequence_mask = low_ones sequence_bits

-- The object. `reads` counts the calls of `timeGen` so far, the position in the clock's readings.
pub record IdWorker : Type 0 where
  pub worker_id : ℕ
  pub datacenter_id : ℕ
  pub sequence : ℕ
  pub last_timestamp : ℕ
  pub reads : ℕ

-- The constructor. Its list sets both ids to 0, over the 5 and the 12 of the header.
abbrev pub new_id_worker : IdWorker
new_id_worker = record {
  worker_id = 0;
  datacenter_id = 0;
  sequence = 0;
  last_timestamp = 0;
  reads = 0;
}

pub set_worker_id : IdWorker → ℕ → IdWorker
set_worker_id w id = record w { worker_id = id }

pub set_datacenter_id : IdWorker → ℕ → IdWorker
set_datacenter_id w id = record w { datacenter_id = id }

-- The expression that `nextId` returns: unsigned 64-bit for the timestamp, 32-bit for the others.
pub compose : ℕ → IdWorker → ℕ
compose timestamp w =
    bit_or
      (bit_or
        (bit_or (u64 (u64 (timestamp + 2 ^ 64 - twepoch) * 2 ^ timestamp_left_shift))
          (u32 (w.datacenter_id * 2 ^ datacenter_id_shift)))
        (u32 (w.worker_id * 2 ^ worker_id_shift)))
      w.sequence

module _ (reading : ℕ → ℕ) where
  unfoldable pub time_gen : Exec IdWorker ℕ
  time_gen w = (ok (u64 (reading w.reads)), record w { reads = suc w.reads })

  -- The loop of `tilNextMillis`, followed for `rounds` rounds at most.
  unfoldable pub spin : ℕ → ℕ → ℕ → Exec IdWorker ℕ
  spin zero last timestamp w = if leb timestamp last then (waiting, w) else (ok timestamp, w)
  spin (suc rounds) last timestamp w = elim (leb timestamp last) [
    | true ↦ spin rounds last (u64 (reading w.reads)) (record w { reads = suc w.reads })
    | false ↦ (ok timestamp, w)
  ]

module _ (reading : ℕ → ℕ) (rounds : ℕ) where
  unfoldable pub til_next_millis : ℕ → Exec IdWorker ℕ
  unfolding time_gen spin
  til_next_millis last = do timestamp ← time_gen reading; spin reading rounds last timestamp

  -- The end of `nextId`.
  finish : ℕ → Exec IdWorker ℕ
  unfolding compose
  finish timestamp w = (ok (compose timestamp w), record w { last_timestamp = timestamp })

  -- Another id within the millisecond of the last one: the next one in sequence, or after a wait.
  same_millis : ℕ → Exec IdWorker ℕ
  unfolding til_next_millis finish
  same_millis timestamp w =
      let w' = record w { sequence = bit_and (u32 (w.sequence + 1)) sequence_mask } in
      if 0 == w'.sequence
      then (til_next_millis w.last_timestamp >>= finish) w'
      else finish timestamp w'

  -- `nextId` from the point where the time has been read and is not before the last one.
  advance : ℕ → Exec IdWorker ℕ
  unfolding same_millis finish
  advance timestamp w =
      if w.last_timestamp == timestamp
      then same_millis timestamp w
      else finish timestamp (record w { sequence = 0 })

  unfoldable pub next_id : Exec IdWorker ℕ
  unfolding advance time_gen
  next_id = do
    timestamp ← time_gen reading
    last ← gets (λ w. w.last_timestamp)
    if ltb timestamp last then throw runtime_error else advance timestamp

  unfoldable pub get_id : Exec IdWorker ℕ
  unfolding next_id
  get_id = next_id
