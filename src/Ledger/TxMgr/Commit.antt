-- ===== src/Ledger/TxMgr/Commit.antt =====
-- `Commit` after `ValidateAndPrepare`: a block has the effect of its valid transactions, run one
-- after another.
use fabric.Base.{
  ℕ, ◌≡◌, refl, subst, ==_iff, nat_eq, list_eq, Bytes, List, [], ◌∷◌, All, arith, Result, ok, err,
  Option, none, some,
}
use fabric.Base.Assoc.{lookup, Distinct, Fresh-lookup}
use fabric.Ledger.Wire.{ProtoBuffer, IsU64}
use fabric.Ledger.Database.{Database, DbError, after_puts}
use fabric.Ledger.CompositeKey.{construct_composite_key}
use fabric.Ledger.StoredValue.{VersionedValue, encode_value, decode-encode}
use fabric.Ledger.RwSet.{TxReadWriteSet}
use fabric.Ledger.World.{World, IsCurrent, SameWorld, apply_tx}
use fabric.Ledger.TxMgr.{
  TxError, UpdateSet, ValidatedBlock, LockBasedTxMgr, read_tx, validate_and_prepare, decode_stored,
  batch_of, commit, get_committed_value_and_version,
}
use fabric.Ledger.TxMgr.Effect.{Holds, or_committed, effective, IsWfBatch}
use fabric.Ledger.TxMgr.Prepare.{
  Schedule, done, accept, reject, IsReadable, validate_and_prepare-Schedule,
}

module _ (p : ProtoBuffer) where
  stored_or : Option VersionedValue → Option Bytes → Option Bytes
  stored_or none v = v
  stored_or (some vv) v = some (encode_value p vv)

  after_puts-batch :
      (u : UpdateSet) (k : Bytes) (v : Option Bytes)
      → Distinct u
      → after_puts (batch_of p u) k v ≡ stored_or (lookup k u) v
  unfolding batch_of stored_or
  after_puts-batch [] k v h = refl
  after_puts-batch ((j, vv) ∷ u) k v h = ground (
    arith,
    ==_iff j k,
    Fresh-lookup j u,
    after_puts-batch u k v,
    after_puts-batch u k (some (encode_value p vv)),
  )

versions-lookup :
    (u : UpdateSet) (k : Bytes) (vv : VersionedValue)
    → All (λ e. IsU64 e.1.version) u
    → lookup k u ≡ some vv
    → IsU64 vv.version
versions-lookup [] k vv h e = cc
versions-lookup ((j, v) ∷ u) k vv h e = ground (arith, versions-lookup u k vv)

module _ (p : ProtoBuffer) where
  -- A batch leaves in the store the value that it gives a key, or what the key held before.
  decode-stored_or :
      (o : Option VersionedValue) (v : Option Bytes)
      → ((vv : VersionedValue) → o ≡ some vv → IsU64 vv.version)
      → decode_stored p (stored_or p o v) ≡ or_committed o (decode_stored p v)
  unfolding decode_stored stored_or
  decode-stored_or none v h = refl
  decode-stored_or (some vv) v h = decode-encode p vv (h vv refl)

module _ (p : ProtoBuffer) (d : Database) where
  open d use {Store, get, write_batch, get-write_batch}

  get_committed-ok :
      (db : Store) (ns key : Bytes) (vv : VersionedValue)
      → get_committed_value_and_version p d db ns key ≡ ok vv
      → (v : Option Bytes) × (get db (construct_composite_key ns key) ≡ ok v)
        × (decode_stored p v ≡ vv)
  unfolding get_committed_value_and_version
  get_committed-ok db ns key vv h = go (get db (construct_composite_key ns key)) refl
    where
      go :
          (r : Result DbError (Option Bytes))
          → get db (construct_composite_key ns key) ≡ r
          → (v : Option Bytes) × (get db (construct_composite_key ns key) ≡ ok v)
            × (decode_stored p v ≡ vv)
      go (ok v) e = (v, e, ground arith)
      go (err f) e = absurd (ground arith)

  -- What the store holds after the batch is what the batch stands for.
  write_batch-effective :
      (db db' : Store) (w w' : World) (u : UpdateSet)
      → Holds p d db w
      → Holds p d db' w'
      → IsWfBatch u
      → write_batch db (batch_of p u) ≡ ok db'
      → SameWorld w' (effective w u)
  write_batch-effective db db' w w' u holds holds' wf e ns key h =
      let k = construct_composite_key ns key in
      let (v, read, decoded) = get_committed-ok db ns key (w ns key) (holds ns key h) in
      let (v', read', decoded') = get_committed-ok db' ns key (w' ns key) (holds' ns key h) in
      let step = get-write_batch db db' (batch_of p u) k v v' e read read' in
      rw (← decoded', step, after_puts-batch p u k v wf.distinct, ← decoded)
        (decode-stored_or p (lookup k u) v (λ vv. versions-lookup u k vv wf.versions))

  commit-ok :
      (db : Store) (u : UpdateSet) (m' : LockBasedTxMgr d)
      → commit p d (record { db = db; update_set = some u }) ≡ (ok tt, m')
      → (write_batch db (batch_of p u) ≡ ok m'.db) × (m'.update_set ≡ none)
  unfolding commit
  commit-ok db u m' h = ground arith

  module _ (get_action : Bytes → Result TxError Bytes) where
    -- From the world `w` the transactions run one after another, each on the world that the one
    -- before it left, where all its reads are current, and they end in the world `after`.
    pub data Serial (after : World) : World → List Bytes → Type 0 where
      stop : {w : World} → SameWorld after w → Serial after w []
      run :
          {w w1 : World} {env : Bytes} {envs : List Bytes} (t : TxReadWriteSet)
          → read_tx p d get_action env ≡ ok t
          → IsCurrent w t
          → SameWorld w1 (apply_tx w t)
          → Serial after w1 envs
          → Serial after w (env ∷ envs)

    Schedule-Serial :
        {w after : World} {final u : UpdateSet} {block kept : List Bytes} {n : ℕ}
        → Schedule p d get_action w final u block kept n
        → SameWorld after (effective w final)
        → Serial after (effective w u) kept
    Schedule-Serial done same = stop same
    Schedule-Serial (accept t read fresh current next rest) same =
        run t read current next (Schedule-Serial rest same)
    Schedule-Serial (reject t read stale rest) same = Schedule-Serial rest same

    -- If the store holds the world `w`, the envelopes of the block can be read, the block is
    -- prepared and then committed, and the store then holds the world `after`, the valid
    -- transactions of the block are a serial run from `w` to `after`; no batch is left over.
    pub commit-Serial :
        (m m1 m2 : LockBasedTxMgr d) (w after : World) (previous_hash : Bytes) (block : List Bytes)
        (out : ValidatedBlock)
        → Holds p d m.db w
        → IsReadable p d get_action block
        → validate_and_prepare p d get_action m previous_hash block ≡ (ok out, m1)
        → commit p d m1 ≡ (ok tt, m2)
        → Holds p d m2.db after
        → Serial after w out.transactions × (m2.update_set ≡ none)
    commit-Serial m m1 m2 w after previous_hash block out holds readable prepared committed holds' =
        let (out', final, eq, schedule, wf, _) =
          validate_and_prepare-Schedule p d get_action m w previous_hash block holds readable in
        let same_out : out' ≡ out = cc in
        let same_m : m1 ≡ record { db = m.db; update_set = some final } = cc in
        let (written, emptied) =
          commit-ok m.db final m2 (subst (λ x. commit p d x ≡ (ok tt, m2)) same_m committed) in
        (
          subst (λ o. Serial after w o.transactions) same_out
              (Schedule-Serial schedule
                (write_batch-effective m.db m2.db w after final holds holds' wf written)),
          emptied,
        )
