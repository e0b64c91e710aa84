-- ===== src/Evaluator/Overlap/Room.antt =====
-- The entry of one connection, and the calls of the methods.
use pick_up_the_light_server.Prelude.{
  ℕ, ◌+◌, ◌-◌, ◌<◌, ◌≤◌, ◌≡◌, ◌≢◌, Bool, true, false, ◌&&◌, Option, none, some, List, [], ◌∷◌,
  arith, if◌then◌else◌, inl, inr, Bool-cases,
}
use pick_up_the_light_server.Text.{Bytes}
use pick_up_the_light_server.Table.{Key, ◌==◌, Table, lookup}
use pick_up_the_light_server.Table.Laws.{
  lookup-insert, lookup-erase, lookup-adjust, NodupKeys, insert-NodupKeys, erase-NodupKeys,
  adjust-NodupKeys,
}
use pick_up_the_light_server.Evaluator.{
  Info, Evaluator, new_info, add, remove, set_0, add_user_id, at_put,
}
use pick_up_the_light_server.Evaluator.Overlap.{
  Checker, sleeping, visiting, adding, Shared, Event, added, removed, heart, logged_in, checking,
  handle,
}

abbrev pub is_sleeping {ℓ} : {K : Type ℓ} → Checker K → Bool
is_sleeping sleeping = true
is_sleeping c = false

module _ {ℓ} {K : Type ℓ} ⦃e : Key K⦄ (k : K) where
  -- The event is no removal of `k`, and begins no round of the check if there is room for none.
  abbrev pub IsAllowed : ℕ → Shared K → Event K → Type ℓ
  IsAllowed n s (added fd ip) = Unit
  IsAllowed n s (removed fd) = fd ≢ k
  IsAllowed n s (heart fd) = Unit
  IsAllowed n s (logged_in fd user_id) = Unit
  IsAllowed n s checking = if is_sleeping s.checker then (0 < n) × Unit {ℓ} else Unit

  -- How many rounds may still begin before the next heartbeat of `k` that falls between two rounds.
  abbrev pub rounds_left : ℕ → Shared K → Event K → ℕ
  rounds_left n s (heart fd) = if fd == k && is_sleeping s.checker then 3 else n
  rounds_left n s checking = if is_sleeping s.checker then n - 1 else n
  rounds_left n s _ = n

  -- `k` is not removed, no more than `n` rounds begin before its next heartbeat that falls between
  -- two rounds, and no more than three between any two of these. There may be any others.
  abbrev pub IsLively : ℕ → List (Event K) → Shared K → Type ℓ
  IsLively n [] s = Unit
  IsLively n (ev ∷ evs) s = IsAllowed n s ev × IsLively (rounds_left n s ev) evs (handle ev s).1

  -- What `num` of `k` leaves room for, by what the copy of the check has for `k`.
  abbrev pub FitsCopy : ℕ → ℕ → Option Info → Type 0
  FitsCopy n num none = num + n ≤ 3
  FitsCopy n num (some copied) = (copied.num + n < 3) × (num + n < 3)

  abbrev pub Fits : ℕ → ℕ → Checker K → Type 0
  Fits n num sleeping = num + n ≤ 3
  Fits n num (visiting copy) = FitsCopy n num (lookup k copy)
  Fits n num (adding fd loaded copy) =
      if fd == k
      then (loaded + n < 3) × (num + n < 3) × (lookup k copy ≡ none)
      else FitsCopy n num (lookup k copy)

  abbrev pub copy_of : Checker K → Table K Info
  copy_of sleeping = []
  copy_of (visiting copy) = copy
  copy_of (adding fd loaded copy) = copy

  pub record HasRoom (n : ℕ) (s : Shared K) : Type ℓ where
    pub info : Info
    pub there : lookup k s.table.m_map ≡ some info
    pub room : Fits n info.num s.checker
    pub nodup : NodupKeys s.table.m_map
    pub nodup_copy : NodupKeys (copy_of s.checker)

  -- A heartbeat only makes room.
  FitsCopy-zero : (n num : ℕ) (c : Option Info) → FitsCopy n num c → FitsCopy n 0 c
  FitsCopy-zero n num none h = omega (arith, h)
  FitsCopy-zero n num (some copied) h = (h.0, omega (arith, h.1))

  Fits-zero : (n num : ℕ) (c : Checker K) → Fits n num c → Fits n 0 c
  Fits-zero n num sleeping h = omega (arith, h)
  Fits-zero n num (visiting copy) h = FitsCopy-zero n num (lookup k copy) h
  Fits-zero n num (adding fd loaded copy) h = elim (Bool-cases (fd == k)) [
    | inl same ↦ let (a, b, c) = rw same at h in rw same (a, omega (arith, b), c)
    | inr other ↦ rw other (FitsCopy-zero n num (lookup k copy) (rw other at h))
  ]

  -- The call of a method that leaves the entry of `k` with room.
  module _ {n : ℕ} {s : Shared K} (h : HasRoom n s) where
    open h use {info, there, room, nodup, nodup_copy}

    keeps_table :
        (t : Evaluator K)
        → lookup k t.m_map ≡ some info
        → NodupKeys t.m_map
        → HasRoom n (record s { table = t })
    keeps_table t there' nodup' = record {
      info = info;
      there = there';
      room = room;
      nodup = nodup';
      nodup_copy = nodup_copy;
    }

    pub add-HasRoom : (fd : K) (ip : Bytes) → HasRoom n (record s { table = (add fd ip s.table).1 })
    unfolding add
    add-HasRoom fd ip =
        keeps_table _
          (ground (arith, there, lookup-insert fd k (new_info ip) s.table.m_map, e.same_iff fd k))
          (insert-NodupKeys fd (new_info ip) s.table.m_map nodup)

    pub remove-HasRoom : (fd : K) → fd ≢ k → HasRoom n (record s { table = (remove fd s.table).1 })
    unfolding remove
    remove-HasRoom fd other =
        keeps_table _ (ground (arith, there, lookup-erase fd k s.table.m_map, e.same_iff fd k))
          (erase-NodupKeys fd s.table.m_map nodup)

    at_put-HasRoom :
        (fd : K) (f : Info → Info) (m : ℕ)
        → ((fd == k) ≡ true → Fits m (f info).num s.checker)
        → ((fd == k) ≡ false → Fits m info.num s.checker)
        → HasRoom m (record s { table = (at_put fd f s.table).1 })
    unfolding at_put
    at_put-HasRoom fd f m self others = elim (Bool-cases (fd == k)) [
      | inl same ↦ record {
        info = f info;
        there = ground (arith, there, same, lookup-adjust fd k f s.table.m_map, e.same_iff fd k);
        room = self same;
        nodup = ground (arith, adjust-NodupKeys fd f s.table.m_map nodup);
        nodup_copy = nodup_copy;
      }
      | inr other ↦ record {
        info = info;
        there = ground (arith, there, other, lookup-adjust fd k f s.table.m_map, e.same_iff fd k);
        room = others other;
        nodup = ground (arith, adjust-NodupKeys fd f s.table.m_map nodup);
        nodup_copy = nodup_copy;
      }
    ]

    pub logged_in-HasRoom :
        (fd : K) (user_id : Bytes)
        → HasRoom n (record s { table = (add_user_id fd user_id s.table).1 })
    unfolding add_user_id
    logged_in-HasRoom fd user_id =
        at_put-HasRoom fd (λ i. record i { user_id = user_id }) n (λ i. room) (λ i. room)

  heart_self :
      (n num : ℕ) (b : Bool) (c : Checker K)
      → Fits n num c
      → b ≡ true
      → Fits (if b && is_sleeping c then 3 else n) 0 c
  heart_self n num b sleeping h same = rw same (omega arith)
  heart_self n num b (visiting copy) h same = rw same (Fits-zero n num (visiting copy) h)
  heart_self n num b (adding fd loaded copy) h same =
      rw same (Fits-zero n num (adding fd loaded copy) h)

  heart_other :
      (n num : ℕ) (b : Bool) (c : Checker K)
      → Fits n num c
      → b ≡ false
      → Fits (if b && is_sleeping c then 3 else n) num c
  heart_other n num b c h other = rw other h

  pub heart-HasRoom :
      {n : ℕ} {s : Shared K} (h : HasRoom n s) (fd : K)
      → HasRoom (rounds_left n s (heart fd)) (record s { table = (set_0 fd s.table).1 })
  unfolding set_0
  heart-HasRoom {n} {s} h fd =
      at_put-HasRoom h fd (λ i. record i { num = 0 }) (rounds_left n s (heart fd))
        (heart_self n h.info.num (fd == k) s.checker h.room)
        (heart_other n h.info.num (fd == k) s.checker h.room)
