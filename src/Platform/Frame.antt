-- ===== src/Platform/Frame.antt =====
-- What a computation leaves alone: rules for a part of the state that no step of it writes.
use pick_up_the_light_server.Prelude.{
  ℕ, List, get_elem?, ◌≡◌, refl, ◌∙◌, Bool, true, false, Option, none, some, if◌then◌else◌,
}
use pick_up_the_light_server.Text.{Bytes, to_string}
use pick_up_the_light_server.Snowflake.{IdWorker, next_id}
use pick_up_the_light_server.Platform.{
  transmit, Platform, World, want, str_field, num_field, bool_field, cell, new_id, Channel,
  fd_channel, socket_channel,
}
use pick_up_the_light_server.Transfer.{my_send}
use pick_up_the_light_server.Database.{query_execute, query_store}
use pick_up_the_light_server.Outcome.{
  type_error, bad_index, Exception, Outcome, ok, throws, undefined, waiting, Exec, continue, ◌>>=◌,
  ◌>>◌, pure, lift,
}

module _ {ℓ} {S B : Type ℓ} (part : S → B) where
  -- However the computation ends, the part of the state is what it was.
  pub record Keeps {A : Type ℓ} (m : Exec S A) : Type ℓ where
    pub kept : (s : S) → part (m s).1 ≡ part s

  module _ {A : Type ℓ} where
    pub same-Keeps : (r : Outcome A) → Keeps (lift r)
    same-Keeps r = record { kept = λ s. refl }

    pub if-Keeps : (b : Bool) {m n : Exec S A} → Keeps m → Keeps n → Keeps (if b then m else n)
    if-Keeps true h k = h
    if-Keeps false h k = k

  module _ {A C : Type ℓ} where
    continue-Keeps :
        (r : Outcome A) (f : A → Exec S C) (s : S)
        → ((a : A) → Keeps (f a))
        → part (continue r f s).1 ≡ part s
    continue-Keeps (ok a) f s h = (h a).kept s
    continue-Keeps (throws e) f s h = refl
    continue-Keeps undefined f s h = refl
    continue-Keeps waiting f s h = refl

    pub bind-Keeps :
        {m : Exec S A} {f : A → Exec S C} → Keeps m → ((a : A) → Keeps (f a)) → Keeps (m >>= f)
    bind-Keeps {m = m} {f = f} h k = record {
      kept = λ s. continue-Keeps (m s).0 f (m s).1 k ∙ h.kept s;
    }

    pub then-Keeps : {m : Exec S A} {n : Exec S C} → Keeps m → Keeps n → Keeps (m >> n)
    then-Keeps {m = m} {n = n} h k = bind-Keeps {m = m} {f = λ a. n} h (λ a. k)

-- A part of the world that commands to the database, writes to the disk and new ids do not reach.
module _ (P : Platform) {B : Type 0} (part : World P → B) where
  pub record IsApart : Type 0 where
    pub db_free : (w : World P) (d : P.mysql.Db) → part (record w { db = d }) ≡ part w
    pub disk_free : (w : World P) (d : P.files.Disk) → part (record w { disk = d }) ≡ part w
    pub id_free : (w : World P) (g : IdWorker) → part (record w { id_worker = g }) ≡ part w

  -- The steps that the controllers share.
  pub want-Keeps : {A : Type 0} (e : Exception) (o : Option A) → Keeps part (want P e o)
  want-Keeps e none = record { kept = λ w. refl }
  want-Keeps e (some a) = record { kept = λ w. refl }

  pub str_field-Keeps : (key : Bytes) (j : P.json.Json) → Keeps part (str_field P key j)
  str_field-Keeps key j =
      bind-Keeps part (want-Keeps type_error (P.json.field key j))
        (λ v. want-Keeps type_error (P.json.to_str v))

  pub num_field-Keeps : (key : Bytes) (j : P.json.Json) → Keeps part (num_field P key j)
  num_field-Keeps key j =
      bind-Keeps part (want-Keeps type_error (P.json.field key j))
        (λ v. want-Keeps type_error (P.json.to_num v))

  pub bool_field-Keeps : (key : Bytes) (j : P.json.Json) → Keeps part (bool_field P key j)
  bool_field-Keeps key j =
      bind-Keeps part (want-Keeps type_error (P.json.field key j))
        (λ v. want-Keeps type_error (P.json.to_bool v))

  pub cell-Keeps : (i : ℕ) (row : List Bytes) → Keeps part (cell P i row)
  cell-Keeps i row = want-Keeps bad_index (get_elem? row i)

  pub query_store-Keeps : (command : Bytes) → Keeps part (query_store P command)
  unfolding query_store
  query_store-Keeps command = record { kept = λ w. refl }

  -- A channel whose sends leave the part alone.
  pub record Quiet (ch : Channel P) : Type 0 where
    pub sends : (bs : Bytes) → Keeps part (ch.send bs)

  pub transmit-Keeps : (ch : Channel P) → Quiet ch → (bs : Bytes) → Keeps part (transmit P ch bs)
  transmit-Keeps ch quiet bs = then-Keeps part (quiet.sends bs) (same-Keeps part (ok tt))

  -- A send writes nothing but the network.
  module _
      (net_free : (w : World P) (n : P.sockets.Net) → part (record w { net = n }) ≡ part w) where
    pub fd_channel-Quiet : (fd : ℕ) → Quiet (fd_channel P fd)
    unfolding fd_channel
    fd_channel-Quiet fd = record {
      sends = λ bs. record { kept = λ w. net_free w (my_send P.sockets P.rounds fd bs w.net).1 };
    }

    pub socket_channel-Quiet : (socket_ptr : ℕ) → Quiet (socket_channel P socket_ptr)
    unfolding socket_channel
    socket_channel-Quiet socket_ptr = record {
      sends = λ bs. record { kept = λ w. net_free w (P.asio_write socket_ptr bs w.net).1 };
    }

  pub query_execute-Keeps :
      ((w : World P) (d : P.mysql.Db) → part (record w { db = d }) ≡ part w)
      → (command : Bytes) → Keeps part (query_execute P command)
  unfolding query_execute
  query_execute-Keeps db_free command = record {
    kept = λ w. db_free w (P.mysql.execute command w.db).1;
  }

  pub new_id-Keeps :
      ((w : World P) (g : IdWorker) → part (record w { id_worker = g }) ≡ part w)
      → Keeps part (new_id P)
  unfolding new_id
  new_id-Keeps id_free = record {
    kept = λ w.
        let made = next_id P.reading P.rounds w.id_worker in
        continue-Keeps part made.0 (λ n. pure (to_string n)) (record w { id_worker = made.1 })
          (λ n. same-Keeps part (ok (to_string n)))
        ∙ id_free w made.1;
  }
