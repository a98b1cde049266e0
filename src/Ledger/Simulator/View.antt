-- ===== src/Ledger/Simulator/View.antt =====
-- What a transaction sees: its own writes, over the state that was committed when it began.
use fabric.Base.{
  ◌≡◌, ◌⊎◌, refl, false, if◌then◌else◌, ◌==◌, ==_iff, nat_eq, list_eq, ◌&&◌, Option, none, some,
  Bytes, Result, ok, err, arith,
}
use fabric.Base.Assoc.{lookup, insert, lookup-insert}
use fabric.Ledger.Wire.{ProtoBuffer}
use fabric.Ledger.Database.{Database}
use fabric.Ledger.RwSet.{KvWrite, new_kv_read}
use fabric.Ledger.StoredValue.{VersionedValue}
use fabric.Ledger.TxMgr.{TxError, get_committed_value_and_version}
use fabric.Ledger.Simulator.{
  NsRws, KvReadCache, LockBasedTxSimulator, holder, put_holder, set_state, get_state, written,
}

pub holder-put_holder :
    (s : LockBasedTxSimulator) (ns ns' : Bytes) (h : NsRws)
    → holder (put_holder ns h s) ns' ≡ (if ns == ns' then h else holder s ns')
unfolding put_holder
holder-put_holder s ns ns' h = ground (arith, lookup-insert ns ns' h s.rw_map)

unfoldable pub cache_of : Bytes → VersionedValue → KvReadCache
unfolding new_kv_read
cache_of key vv = record { kv_read = new_kv_read key vv.version; cached_value = vv.value }

unfoldable pub write_holder : Bytes → Option Bytes → NsRws → NsRws
write_holder key value h = record h {
  write_map = insert key (written (lookup key h.write_map) key value) h.write_map;
}

written_value :
    (o : Option KvWrite) (key : Bytes) (value : Option Bytes) → (written o key value).value ≡ value
unfolding written
written_value none key value = refl
written_value (some w) key value = refl

module _ (p : ProtoBuffer) (d : Database) where
  open d use {Store}

  abbrev stored_value : Result TxError VersionedValue → Result TxError (Option Bytes)
  stored_value (ok vv) = ok vv.value
  stored_value (err e) = err e

  -- What the transaction would read, were it to read the key now.
  abbrev seen_in : Store → NsRws → Bytes → Bytes → Result TxError (Option Bytes)
  seen_in db h ns key = elim (lookup key h.write_map) [
    | some w ↦ ok w.value
    | none ↦ elim (lookup key h.read_map) [
      | some c ↦ ok c.cached_value
      | none ↦ stored_value (get_committed_value_and_version p d db ns key)
    ]
  ]

  unfoldable pub seen : Store → LockBasedTxSimulator → Bytes → Bytes → Result TxError (Option Bytes)
  seen db s ns key = seen_in db (holder s ns) ns key

  -- The holder of a namespace after `get_state`.
  unfoldable pub read_holder : Store → Bytes → Bytes → NsRws → NsRws
  unfolding cache_of
  read_holder db ns key h = elim (lookup key h.write_map) [
    | some w ↦ h
    | none ↦ elim (lookup key h.read_map) [
      | some c ↦ h
      | none ↦ elim (get_committed_value_and_version p d db ns key) [
        | err e ↦ h
        | ok vv ↦ record h { read_map = insert key (cache_of key vv) h.read_map }
      ]
    ]
  ]

  module _ (db : Store) (s : LockBasedTxSimulator) (ns key : Bytes) where
    pub holder-get_state :
        (ns' : Bytes)
        → s.finished ≡ false
        → holder (get_state p d db ns key s).1 ns'
          ≡ (if ns == ns' then read_holder db ns key (holder s ns) else holder s ns')
    unfolding get_state read_holder
    holder-get_state ns' h = ground (
      arith,
      ==_iff ns ns',
      lookup-insert ns ns' (holder s ns) s.rw_map,
      lookup-insert ns ns' (read_holder db ns key (holder s ns)) (insert ns (holder s ns) s.rw_map),
    )

    pub holder-set_state :
        (value : Option Bytes) (ns' : Bytes)
        → s.finished ≡ false
        → holder (set_state ns key value s).1 ns'
          ≡ (if ns == ns' then write_holder key value (holder s ns) else holder s ns')
    unfolding set_state write_holder
    holder-set_state value ns' h = ground (
      arith,
      ==_iff ns ns',
      lookup-insert ns ns' (holder s ns) s.rw_map,
      lookup-insert ns ns' (write_holder key value (holder s ns))
          (insert ns (holder s ns) s.rw_map),
    )

  -- The states that the two leave, as changes of holders.
  pub state-get_state :
      (db : Store) (s : LockBasedTxSimulator) (ns key : Bytes)
      → s.finished ≡ false
      → let s1 = put_holder ns (holder s ns) s in
        ((get_state p d db ns key s).1 ≡ s1)
        ⊎ ((get_state p d db ns key s).1 ≡ put_holder ns (read_holder db ns key (holder s ns)) s1)
  unfolding get_state read_holder
  state-get_state db s ns key running = ground arith

  pub state-set_state :
      (s : LockBasedTxSimulator) (ns key : Bytes) (value : Option Bytes)
      → s.finished ≡ false
      → (set_state ns key value s).1
        ≡ put_holder ns (write_holder key value (holder s ns)) (put_holder ns (holder s ns) s)
  unfolding set_state write_holder
  state-set_state s ns key value running = ground arith

  seen_in-read_holder :
      (db : Store) (h : NsRws) (ns key key' : Bytes)
      → seen_in db (read_holder db ns key h) ns key' ≡ seen_in db h ns key'
  unfolding read_holder cache_of
  seen_in-read_holder db h ns key key' = go (get_committed_value_and_version p d db ns key) refl
    where
      go :
          (r : Result TxError VersionedValue)
          → get_committed_value_and_version p d db ns key ≡ r
          → seen_in db (read_holder db ns key h) ns key' ≡ seen_in db h ns key'
      go (ok vv) e =
          ground (arith, ==_iff key key', lookup-insert key key' (cache_of key vv) h.read_map)
      go (err f) e = ground arith

  seen_in-write_holder :
      (db : Store) (h : NsRws) (ns key key' : Bytes) (value : Option Bytes)
      → seen_in db (write_holder key value h) ns key'
        ≡ (if key == key' then ok value else seen_in db h ns key')
  unfolding write_holder
  seen_in-write_holder db h ns key key' value = ground (
    arith,
    ==_iff key key',
    written_value (lookup key h.write_map) key value,
    lookup-insert key key' (written (lookup key h.write_map) key value) h.write_map,
  )

  module _ (db : Store) (s : LockBasedTxSimulator) (ns key : Bytes)
      (running : s.finished ≡ false) where
    get_state-eq-seen : (get_state p d db ns key s).0 ≡ seen db s ns key
    unfolding get_state seen
    get_state-eq-seen = ground arith

    seen-get_state :
        (ns' key' : Bytes) → seen db (get_state p d db ns key s).1 ns' key' ≡ seen db s ns' key'
    unfolding seen
    seen-get_state ns' key' =
        rw (holder-get_state db s ns key ns' running)
          (ground (arith, ==_iff ns ns', seen_in-read_holder db (holder s ns) ns key key'))

    -- Until `Done`, `get_state` returns what the transaction sees at the key, and changes what it
    -- sees at no key: a second read, of this key or another, returns what it would have returned.
    pub get_state-seen :
        ((get_state p d db ns key s).0 ≡ seen db s ns key)
        × ((ns' key' : Bytes) → seen db (get_state p d db ns key s).1 ns' key' ≡ seen db s ns' key')
    get_state-seen = (get_state-eq-seen, seen-get_state)

    -- Until `Done`, `set_state` makes the transaction see the new value at the key, nil for a delete,
    -- and changes what it sees at no other key.
    pub seen-set_state :
        (value : Option Bytes) (ns' key' : Bytes)
        → seen db (set_state ns key value s).1 ns' key'
          ≡ (if ns == ns' && key == key' then ok value else seen db s ns' key')
    unfolding seen
    seen-set_state value ns' key' =
        rw (holder-set_state db s ns key value ns' running)
          (ground (arith, ==_iff ns ns', seen_in-write_holder db (holder s ns) ns key key' value))
