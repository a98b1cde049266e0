-- ===== src/Ledger/TxMgr.antt =====
-- core/ledger/kvledger/txmgmt/lockbasedtxmgmt/lockbased_txmgr.go: the validation of a block against
-- the committed versions, and its commit. The read-write lock makes each method one step.
pub mod Validate
pub mod Effect
pub mod Prepare
pub mod Commit
use fabric.Base.{
  ℕ, ◌+◌, ◌%◌, ◌^◌, Bool, true, false, if◌then◌else◌, ◌==◌, nat_eq, list_eq, is_none, not, Option,
  none, some, Bytes, List, [], ◌∷◌, ◌++◌, map, Result, ok, err,
}
use fabric.Base.Assoc.{Assoc, lookup, insert}
use fabric.Base.Proc.{Proc, pure, lift, ◌>>=◌, ◌>>◌}
use fabric.Ledger.Wire.{ProtoBuffer}
use fabric.Ledger.Database.{Database}
use fabric.Ledger.RwSet.{KvRead, KvWrite, NsReadWriteSet, TxReadWriteSet, unmarshal}
use fabric.Ledger.CompositeKey.{construct_composite_key}
use fabric.Ledger.StoredValue.{VersionedValue, encode_value, decode_value}

-- `panicked` is `Commit` without `ValidateAndPrepare`, or a simulator that is used after `Done`.
pub data TxError : Type 0 where
  bad_envelope bad_rw_set db_failed panicked : TxError

pub data Cause : Type 0 where
  rw_conflict_during_commit : Cause

abbrev pub UpdateSet : Type 0
UpdateSet = Assoc Bytes VersionedValue

-- `versionedValue.version + 1` on a `uint64`
abbrev pub next_version : ℕ → ℕ
next_version n = (n + 1) % 2 ^ 64

pub record ValidatedBlock : Type 0 where
  pub previous_block_hash : Bytes
  pub transactions : List Bytes
  pub invalid : List Cause

module _ (d : Database) where
  open d use {Store}

  pub record LockBasedTxMgr : Type 0 where
    pub db : Store
    pub update_set : Option UpdateSet

or_bad_rw_set {ℓ} : {A : Type ℓ} {E : Type 0} → Result E A → Result TxError A
or_bad_rw_set (ok a) = ok a
or_bad_rw_set (err e) = err bad_rw_set

module _ (p : ProtoBuffer) where
  -- A key that was never written has no value and version 0.
  decode_stored : Option Bytes → VersionedValue
  decode_stored none = record { value = none; version = 0 }
  decode_stored (some b) = decode_value p b

  -- the puts that `Commit` makes
  unfoldable pub batch_of : UpdateSet → List (Bytes × Bytes)
  batch_of = map (λ e. (e.0, encode_value p e.1))

module _ (p : ProtoBuffer) (d : Database) where
  open d use {Store, get, write_batch}

  unfoldable pub get_committed_value_and_version :
      Store → Bytes → Bytes → Result TxError VersionedValue
  unfolding decode_stored
  get_committed_value_and_version db ns key = elim (get db (construct_composite_key ns key)) [
    | ok found ↦ ok (decode_stored p found)
    | err e ↦ err db_failed
  ]

  unfoldable pub get_committed_version : Store → Bytes → Bytes → Result TxError ℕ
  get_committed_version db ns key = elim (get_committed_value_and_version db ns key) [
    | ok vv ↦ ok vv.version
    | err e ↦ err e
  ]

  -- the loop of `validateTx` over the reads of a namespace
  unfoldable pub validate_reads : Store → UpdateSet → Bytes → List KvRead → Result TxError Bool
  validate_reads db u ns [] = ok true
  validate_reads db u ns (r ∷ rs) =
      let rest = validate_reads db u ns rs in
      if not (is_none (lookup (construct_composite_key ns r.key) u))
      then ok false
      else elim (get_committed_version db ns r.key) [
        | err e ↦ err e
        | ok current ↦ if current == r.version then rest else ok false
      ]

  unfoldable pub validate_namespaces : Store → UpdateSet → List NsReadWriteSet → Result TxError Bool
  validate_namespaces db u [] = ok true
  validate_namespaces db u (n ∷ ns) =
      let rest = validate_namespaces db u ns in
      elim (validate_reads db u n.name_space n.reads) [
        | err e ↦ err e
        | ok valid ↦ if valid then rest else ok false
      ]

  unfoldable pub validate_tx : Store → UpdateSet → TxReadWriteSet → Result TxError Bool
  validate_tx db u t = validate_namespaces db u t.ns_rws

  version_before : Store → UpdateSet → Bytes → Bytes → Result TxError ℕ
  version_before db u ns key = elim (lookup (construct_composite_key ns key) u) [
    | some vv ↦ ok vv.version
    | none ↦ get_committed_version db ns key
  ]

  -- one round of `addWriteSetToBatch`
  unfoldable pub add_write : Store → Bytes → KvWrite → Proc UpdateSet TxError (Unit {0})
  unfolding version_before
  add_write db ns w u = elim (version_before db u ns w.key) [
    | err e ↦ (err e, u)
    | ok current ↦ (
      ok tt,
      insert (construct_composite_key ns w.key)
          (record { value = w.value; version = next_version current }) u,
    )
  ]

  unfoldable pub add_writes : Store → Bytes → List KvWrite → Proc UpdateSet TxError (Unit {0})
  add_writes db ns [] = pure tt
  add_writes db ns (w ∷ ws) = do add_write db ns w; add_writes db ns ws

  unfoldable pub add_namespaces : Store → List NsReadWriteSet → Proc UpdateSet TxError (Unit {0})
  add_namespaces db [] = pure tt
  add_namespaces db (n ∷ ns) = do add_writes db n.name_space n.writes; add_namespaces db ns

  unfoldable pub add_write_set_to_batch : Store → TxReadWriteSet → Proc UpdateSet TxError (Unit {0})
  add_write_set_to_batch db t = add_namespaces db t.ns_rws

  -- The update set is dropped also when the store refuses the batch.
  unfoldable pub commit : LockBasedTxMgr d → Result TxError (Unit {0}) × LockBasedTxMgr d
  unfolding batch_of
  commit m = elim m.update_set [
    | none ↦ (err panicked, m)
    | some u ↦ elim (write_batch m.db (batch_of p u)) [
      | err e ↦ (err db_failed, record { db = m.db; update_set = none })
      | ok db ↦ (ok tt, record { db = db; update_set = none })
    ]
  ]

  unfoldable pub rollback : LockBasedTxMgr d → LockBasedTxMgr d
  rollback m = record { db = m.db; update_set = none }

  -- `putils.GetActionFromEnvelope` takes an envelope apart by the generated readers of its nested
  -- messages: what it finds is a parameter.
  module _ (get_action : Bytes → Result TxError Bytes) where
    unfoldable pub read_tx : Bytes → Result TxError TxReadWriteSet
    unfolding or_bad_rw_set
    read_tx env = elim (get_action env) [
      | err e ↦ err e
      | ok results ↦ or_bad_rw_set (unmarshal p results)
    ]

    unfoldable pub keep_valid :
        Store
        → Bytes
        → TxReadWriteSet
        → ValidatedBlock
        → Bool
        → Proc UpdateSet TxError ValidatedBlock
    keep_valid db env t out true = do
      add_write_set_to_batch db t
      pure (record out { transactions = out.transactions ++ (env ∷ []) })
    keep_valid db env t out false =
        pure (record out { invalid = out.invalid ++ (rw_conflict_during_commit ∷ []) })

    -- one round of the loop of `ValidateAndPrepare`
    unfoldable pub prepare_tx :
        Store → ValidatedBlock → Bytes → Proc UpdateSet TxError ValidatedBlock
    unfolding keep_valid
    prepare_tx db out env u = elim (read_tx env) [
      | err e ↦ (err e, u)
      | ok t ↦ elim (validate_tx db u t) [
        | err e ↦ (err e, u)
        | ok valid ↦ keep_valid db env t out valid u
      ]
    ]

    unfoldable pub prepare_all :
        Store → ValidatedBlock → List Bytes → Proc UpdateSet TxError ValidatedBlock
    prepare_all db out [] = pure out
    prepare_all db out (env ∷ envs) = do out' ← prepare_tx db out env; prepare_all db out' envs

    -- The update set is made anew, and is left as it is when an envelope cannot be read.
    unfoldable pub validate_and_prepare :
        LockBasedTxMgr d → Bytes → List Bytes → Result TxError ValidatedBlock × LockBasedTxMgr d
    validate_and_prepare m previous_hash block =
        let (result, u) =
          prepare_all m.db
            (record { previous_block_hash = previous_hash; transactions = []; invalid = [] }) block
            [] in
        (result, record { db = m.db; update_set = some u })
