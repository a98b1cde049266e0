-- ===== src/Ledger/Simulator.antt =====
-- lockbasedtxmgmt/lockbased_tx_simulator.go and lockbased_query_executer.go: a transaction is run
-- on the committed state, and what it reads and writes is recorded. The simulator holds the read
-- lock until `Done`, so the store does not change under it: it is an argument.
pub mod View
pub mod Recorded
pub mod Calls
pub mod Results
use fabric.Base.{
  ℕ, Bool, true, false, if◌then◌else◌, ◌==◌, nat_eq, list_eq, is_none, Option, none, some, Bytes,
  List, [], ◌∷◌, ◌++◌, map, Result, ok, err,
}
use fabric.Base.Assoc.{Assoc, lookup, insert}
use fabric.Base.Proc.{Proc, pure, lift, ◌>>=◌, ◌>>◌}
use fabric.Ledger.Wire.{ProtoBuffer}
use fabric.Ledger.Database.{Database}
use fabric.Ledger.RwSet.{
  KvRead, KvWrite, NsReadWriteSet, TxReadWriteSet, new_kv_read, new_kv_write, set_value, marshal,
}
use fabric.Ledger.CompositeKey.{construct_composite_key, split_composite_key}
use fabric.Ledger.StoredValue.{VersionedValue, decode_value}
use fabric.Ledger.TxMgr.{TxError, panicked, get_committed_value_and_version}

pub record KvReadCache : Type 0 where
  pub kv_read : KvRead
  pub cached_value : Option Bytes

pub record NsRws : Type 0 where
  pub read_map : Assoc Bytes KvReadCache
  pub write_map : Assoc Bytes KvWrite

pub record LockBasedTxSimulator : Type 0 where
  pub rw_map : Assoc Bytes NsRws
  pub finished : Bool

abbrev pub Sim {ℓ} : Type ℓ → Type ℓ
Sim A = Proc LockBasedTxSimulator TxError A

abbrev pub new_ns_rws : NsRws
new_ns_rws = record { read_map = []; write_map = [] }

abbrev pub new_tx_simulator : LockBasedTxSimulator
new_tx_simulator = record { rw_map = []; finished = false }

-- `checkDone` panics once `Done` was called.
check_done : Sim (Unit {0})
check_done s = if s.finished then (err panicked, s) else (ok tt, s)

unfoldable pub finish : LockBasedTxSimulator → LockBasedTxSimulator
finish s = record s { finished = true }

abbrev pub or_new : Option NsRws → NsRws
or_new none = new_ns_rws
or_new (some h) = h

abbrev pub holder : LockBasedTxSimulator → Bytes → NsRws
holder s ns = or_new (lookup ns s.rw_map)

unfoldable pub put_holder : Bytes → NsRws → LockBasedTxSimulator → LockBasedTxSimulator
put_holder ns h s = record s { rw_map = insert ns h s.rw_map }

get_or_create_ns_rw_holder : Bytes → Sim NsRws
unfolding put_holder
get_or_create_ns_rw_holder ns s = (ok (holder s ns), put_holder ns (holder s ns) s)

modify : (LockBasedTxSimulator → LockBasedTxSimulator) → Sim (Unit {0})
modify f s = (ok tt, f s)

record_read : Bytes → Bytes → VersionedValue → NsRws → LockBasedTxSimulator → LockBasedTxSimulator
unfolding put_holder new_kv_read
record_read ns key vv h = put_holder ns (record h {
  read_map =
      insert key (record { kv_read = new_kv_read key vv.version; cached_value = vv.value })
        h.read_map;
})

unfoldable pub written : Option KvWrite → Bytes → Option Bytes → KvWrite
unfolding set_value new_kv_write
written none key value = new_kv_write key value
written (some w) key value = set_value w value

-- `SetState`; `DeleteState` sets a nil value.
unfoldable pub set_state : Bytes → Bytes → Option Bytes → Sim (Unit {0})
unfolding check_done get_or_create_ns_rw_holder modify put_holder written
set_state ns key value = do
  check_done
  h ← get_or_create_ns_rw_holder ns
  modify (
      put_holder ns (record h {
        write_map = insert key (written (lookup key h.write_map) key value) h.write_map;
      }))

unfoldable pub delete_state : Bytes → Bytes → Sim (Unit {0})
unfolding set_state
delete_state ns key = set_state ns key none

unfoldable pub set_state_multiple_keys : Bytes → Assoc Bytes (Option Bytes) → Sim (Unit {0})
unfolding set_state
set_state_multiple_keys ns [] = pure tt
set_state_multiple_keys ns ((k, v) ∷ kvs) = do set_state ns k v; set_state_multiple_keys ns kvs

module _ (p : ProtoBuffer) (d : Database) where
  open d use {Store, entries}

  read_storage : Store → Bytes → Bytes → NsRws → Sim (Option Bytes)
  unfolding record_read modify
  read_storage db ns key h = do
    vv ← lift (get_committed_value_and_version p d db ns key)
    modify (record_read ns key vv h)
    pure vv.value

  read_cached : Store → Bytes → Bytes → NsRws → Option KvReadCache → Sim (Option Bytes)
  unfolding read_storage
  read_cached db ns key h none = read_storage db ns key h
  read_cached db ns key h (some c) = pure c.cached_value

  read_written : Store → Bytes → Bytes → NsRws → Option KvWrite → Sim (Option Bytes)
  unfolding read_cached
  read_written db ns key h none = read_cached db ns key h (lookup key h.read_map)
  read_written db ns key h (some w) = pure w.value

  -- `GetState` looks among the writes, among the reads, and in the store.
  unfoldable pub get_state : Store → Bytes → Bytes → Sim (Option Bytes)
  unfolding check_done get_or_create_ns_rw_holder read_written
  get_state db ns key = do
    check_done
    h ← get_or_create_ns_rw_holder ns
    read_written db ns key h (lookup key h.write_map)

  -- The bounds of a range: an empty key is no bound, of the namespace either.
  range_bound : Bytes → Bytes → Option Bytes
  range_bound ns [] = none
  range_bound ns (c ∷ cs) = some (construct_composite_key ns (c ∷ cs))

  unfoldable pub get_state_range_scan_iterator :
      Store → Bytes → Bytes → Bytes → Sim (List (Bytes × Bytes))
  unfolding check_done range_bound
  get_state_range_scan_iterator db ns start_key end_key = do
    check_done
    pure (entries db (range_bound ns start_key) (range_bound ns end_key))

  -- `Next` of the iterator over a range: the entries that are left are its state.
  unfoldable pub scan_next :
      Bytes → List (Bytes × Bytes) → Sim (Option (Bytes × Bytes) × List (Bytes × Bytes))
  unfolding record_read
  scan_next ns [] s = (ok (none, []), s)
  scan_next ns ((k, v) ∷ rest) s = elim (split_composite_key k) [
    | none ↦ (err panicked, s)
    | some nk ↦ elim (decode_value p v).value [
      | none ↦ scan_next ns rest s
      | some value ↦
          (ok (some (nk.1, value), rest), record_read ns nk.1 (decode_value p v) (holder s ns) s)
    ]
  ]

-- `getSortedKeys` collects the keys of a map in the order in which Go enumerates it.
module _ (order : List Bytes → List Bytes) where
  unfoldable pub get_sorted_keys {ℓ} : {V : Type ℓ} → Assoc Bytes V → List Bytes
  get_sorted_keys m = order (map (λ e. e.0) m)

  -- The entries at the listed keys; each is a key of the map.
  unfoldable pub entries_at {ℓ} : {V : Type ℓ} → List Bytes → Assoc Bytes V → List (Bytes × V)
  entries_at [] m = []
  entries_at (k ∷ ks) m = elim (lookup k m) [
    | none ↦ entries_at ks m
    | some v ↦ (k, v) ∷ entries_at ks m
  ]

  unfoldable pub ns_rw_set : Bytes × NsRws → NsReadWriteSet
  unfolding get_sorted_keys entries_at
  ns_rw_set e = record {
    name_space = e.0;
    reads = map (λ r. r.1.kv_read) (entries_at (get_sorted_keys e.1.read_map) e.1.read_map);
    writes = map (λ w. w.1) (entries_at (get_sorted_keys e.1.write_map) e.1.write_map);
  }

  unfoldable pub get_tx_read_write_set : LockBasedTxSimulator → TxReadWriteSet
  unfolding ns_rw_set
  get_tx_read_write_set s = record {
    ns_rws = map ns_rw_set (entries_at (get_sorted_keys s.rw_map) s.rw_map);
  }

  unfoldable pub get_tx_simulation_results : ProtoBuffer → LockBasedTxSimulator → Bytes
  get_tx_simulation_results p s = marshal p (get_tx_read_write_set s)
