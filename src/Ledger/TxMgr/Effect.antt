-- ===== src/Ledger/TxMgr/Effect.antt =====
-- What an update set stands for: the world that the store will hold once it is committed.
use fabric.Base.{
  ◌≡◌, refl, ◌==◌, ==_iff, nat_eq, list_eq, ◌&&◌, Bytes, List, [], ◌∷◌, All, arith, Result, ok,
  Option, none, some,
}
use fabric.Base.Assoc.{lookup, insert, lookup-insert, Distinct, Distinct-insert}
use fabric.Ledger.Wire.{ProtoBuffer, IsU64}
use fabric.Ledger.Database.{Database}
use fabric.Ledger.RwSet.{KvWrite, NsReadWriteSet, TxReadWriteSet}
use fabric.Ledger.CompositeKey.{HasNoSep, construct_composite_key, construct-injective}
use fabric.Ledger.StoredValue.{VersionedValue}
use fabric.Ledger.World.{
  World, update, apply_write, apply_writes, apply_namespaces, apply_tx, HasNamespaces, SameWorld,
  SameWorld-apply_writes, SameWorld-apply_namespaces, SameWorld-trans,
}
use fabric.Ledger.TxMgr.{
  TxError, UpdateSet, get_committed_value_and_version, get_committed_version, version_before,
  add_write, add_writes, add_namespaces, add_write_set_to_batch, next_version,
}

abbrev pub or_committed : Option VersionedValue → VersionedValue → VersionedValue
or_committed none vv = vv
or_committed (some new) vv = new

abbrev pub effective : World → UpdateSet → World
effective w u ns key = or_committed (lookup (construct_composite_key ns key) u) (w ns key)

-- A batch has one entry for a key, and its versions are `uint64`s.
pub record IsWfBatch (u : UpdateSet) : Type 0 where
  pub distinct : Distinct u
  pub versions : All (λ e. IsU64 e.1.version) u

pub IsWfBatch-empty : IsWfBatch []
IsWfBatch-empty = record { distinct = tt; versions = tt }

versions-insert :
    (k : Bytes) (vv : VersionedValue) (u : UpdateSet)
    → IsU64 vv.version
    → All (λ e. IsU64 e.1.version) u
    → All (λ e. IsU64 e.1.version) (insert k vv u)
versions-insert k vv [] h a = (h, tt)
versions-insert k vv ((j, v) ∷ u) h a = ground (arith, versions-insert k vv u)

-- What a write puts into the batch.
new_value : World → UpdateSet → Bytes → KvWrite → VersionedValue
new_value w u ns kv = record {
  value = kv.value;
  version = next_version (effective w u ns kv.key).version;
}

IsWfBatch-insert :
    (k : Bytes) (w : World) (u : UpdateSet) (ns : Bytes) (kv : KvWrite)
    → IsWfBatch u
    → IsWfBatch (insert k (new_value w u ns kv) u)
unfolding new_value
IsWfBatch-insert k w u ns kv wf = record {
  distinct = Distinct-insert k _ u wf.distinct;
  versions = versions-insert k _ u (omega arith) wf.versions;
}

composite_keys-beq :
    (ns key ns' key' : Bytes)
    → HasNoSep ns
    → HasNoSep ns'
    → (construct_composite_key ns key == construct_composite_key ns' key')
      ≡ (ns == ns' && key == key')
composite_keys-beq ns key ns' key' h h' = ground (
  arith,
  ==_iff ns ns',
  ==_iff key key',
  ==_iff (construct_composite_key ns key) (construct_composite_key ns' key'),
  construct-injective ns ns' key key' h h',
)

effective-insert :
    (w : World) (u : UpdateSet) (ns key : Bytes) (vv : VersionedValue)
    → HasNoSep ns
    → SameWorld
        (effective w (insert (construct_composite_key ns key) vv u))
        (update (effective w u) ns key vv)
effective-insert w u ns key vv h ns' key' h' =
    rw
      (
        lookup-insert (construct_composite_key ns key) (construct_composite_key ns' key') vv u,
        composite_keys-beq ns key ns' key' h h',
      )
      (ground arith)

apply_write-effective :
    (w : World) (u : UpdateSet) (ns : Bytes) (kv : KvWrite)
    → HasNoSep ns
    → SameWorld
        (effective w (insert (construct_composite_key ns kv.key) (new_value w u ns kv) u))
        (apply_write (effective w u) ns kv)
unfolding apply_write new_value
apply_write-effective w u ns kv h = effective-insert w u ns kv.key (new_value w u ns kv) h

module _ (p : ProtoBuffer) (d : Database) where
  open d use {Store}

  -- The store can be read, and holds the world `w`.
  abbrev pub Holds : Store → World → Type 0
  Holds db w =
      (ns key : Bytes) → HasNoSep ns → get_committed_value_and_version p d db ns key ≡ ok (w ns key)

  -- The run ends well, in a batch that stands for the world `after`.
  abbrev pub Batches : World → Result TxError (Unit {0}) × UpdateSet → World → Type 0
  Batches w r after =
      (u : UpdateSet) × (r ≡ (ok tt, u)) × SameWorld (effective w u) after × IsWfBatch u

  module _ (db : Store) (w : World) (holds : Holds db w) where
    pub get_committed_version-eq :
        (ns key : Bytes) → HasNoSep ns → get_committed_version p d db ns key ≡ ok (w ns key).version
    unfolding get_committed_version
    get_committed_version-eq ns key h = ground (arith, holds ns key h)

    version_before-eq :
        (u : UpdateSet) (ns key : Bytes)
        → HasNoSep ns
        → version_before p d db u ns key ≡ ok (effective w u ns key).version
    unfolding version_before
    version_before-eq u ns key h = ground (arith, get_committed_version-eq ns key h)

    add_write-eq :
        (u : UpdateSet) (ns : Bytes) (kv : KvWrite)
        → HasNoSep ns
        → add_write p d db ns kv u
          ≡ (ok tt, insert (construct_composite_key ns kv.key) (new_value w u ns kv) u)
    unfolding add_write new_value
    add_write-eq u ns kv h = ground (arith, version_before-eq u ns kv.key h)

    -- Adding writes to the batch does not fail, and the batch then stands for the world that the
    -- writes make of what it stood for.
    add_writes-Batches :
        (kvs : List KvWrite) (ns : Bytes) (u : UpdateSet)
        → HasNoSep ns
        → IsWfBatch u
        → Batches w (add_writes p d db ns kvs u) (apply_writes (effective w u) ns kvs)
    unfolding add_writes apply_writes
    add_writes-Batches [] ns u h wf = (u, refl, λ _ _ _. refl, wf)
    add_writes-Batches (kv ∷ kvs) ns u h wf =
        let u1 = insert (construct_composite_key ns kv.key) (new_value w u ns kv) u in
        let (u2, run, same, wf2) =
          add_writes-Batches kvs ns u1 h
            (IsWfBatch-insert (construct_composite_key ns kv.key) w u ns kv wf) in
        (
          u2,
          rw (add_write-eq u ns kv h) run,
          SameWorld-trans same (
              SameWorld-apply_writes kvs (effective w u1) (apply_write (effective w u) ns kv) ns h
                (apply_write-effective w u ns kv h)),
          wf2,
        )

    add_namespaces-Batches :
        (ns : List NsReadWriteSet) (u : UpdateSet)
        → All (λ n. HasNoSep n.name_space) ns
        → IsWfBatch u
        → Batches w (add_namespaces p d db ns u) (apply_namespaces (effective w u) ns)
    unfolding add_namespaces apply_namespaces
    add_namespaces-Batches [] u h wf = (u, refl, λ _ _ _. refl, wf)
    add_namespaces-Batches (n ∷ ns) u h wf =
        let (u1, run1, same1, wf1) = add_writes-Batches n.writes n.name_space u h.0 wf in
        let (u2, run2, same2, wf2) = add_namespaces-Batches ns u1 h.1 wf1 in
        (
          u2,
          rw run1 run2,
          SameWorld-trans same2 (
              SameWorld-apply_namespaces ns (effective w u1)
                (apply_writes (effective w u) n.name_space n.writes) h.1 same1),
          wf2,
        )

    -- Adding the writes of a transaction to the batch does not fail, and the batch then stands for
    -- the world in which the transaction has run.
    pub add_write_set_to_batch-Batches :
        (t : TxReadWriteSet) (u : UpdateSet)
        → HasNamespaces t
        → IsWfBatch u
        → Batches w (add_write_set_to_batch p d db t u) (apply_tx (effective w u) t)
    unfolding add_write_set_to_batch apply_tx
    add_write_set_to_batch-Batches t u h wf = add_namespaces-Batches t.ns_rws u h wf
