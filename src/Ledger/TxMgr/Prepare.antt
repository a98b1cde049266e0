-- ===== src/Ledger/TxMgr/Prepare.antt =====
-- `ValidateAndPrepare`: how a block is divided into valid and invalid transactions.
use mathlib.Core.List.{append-nil}
use native.Mathlib.Nat.{zero-add}
use fabric.Base.{
  ℕ, suc, ◌+◌, ◌≡◌, ◌∙◌, sym, refl, true, false, Bool-cases, inl, inr, Bytes, List, [], ◌∷◌, ◌++◌,
  append_assoc, length, length-append, All, arith, Result, ok, some,
}
use fabric.Ledger.Wire.{ProtoBuffer}
use fabric.Ledger.Database.{Database}
use fabric.Ledger.RwSet.{TxReadWriteSet}
use fabric.Ledger.World.{World, HasNamespaces, IsCurrent, SameWorld, apply_tx}
use fabric.Ledger.TxMgr.{
  TxError, UpdateSet, ValidatedBlock, LockBasedTxMgr, read_tx, prepare_tx, prepare_all,
  validate_and_prepare, add_write_set_to_batch, validate_tx, rw_conflict_during_commit,
}
use fabric.Ledger.TxMgr.Effect.{
  Holds, effective, IsWfBatch, IsWfBatch-empty, add_write_set_to_batch-Batches,
}
use fabric.Ledger.TxMgr.Validate.{IsFreshTx, IsFreshTx-IsCurrent, validate_tx_iff}

module _ (p : ProtoBuffer) (d : Database) (get_action : Bytes → Result TxError Bytes) where
  open d use {Store}

  -- Every envelope of the block can be read, and names no namespace with a zero byte.
  abbrev pub IsReadable : List Bytes → Type 0
  IsReadable =
      All (λ env. (t : TxReadWriteSet) × (read_tx p d get_action env ≡ ok t) × HasNamespaces t)

  -- How a block goes, on a store that holds the world `w`, from a batch to the batch `final`: the
  -- valid transactions, and how many are invalid. A valid one is fresh, its reads are current in
  -- the world that the batch stands for, and it runs on that world. An invalid one is not fresh.
  pub data Schedule (w : World) (final : UpdateSet)
      : UpdateSet → List Bytes → List Bytes → ℕ → Type 0 where
    done : Schedule w final final [] [] 0
    accept :
        {u u1 : UpdateSet} {env : Bytes} {block kept : List Bytes} {n : ℕ} (t : TxReadWriteSet)
        → read_tx p d get_action env ≡ ok t
        → IsFreshTx w u t
        → IsCurrent (effective w u) t
        → SameWorld (effective w u1) (apply_tx (effective w u) t)
        → Schedule w final u1 block kept n
        → Schedule w final u (env ∷ block) (env ∷ kept) n
    reject :
        {u : UpdateSet} {env : Bytes} {block kept : List Bytes} {n : ℕ} (t : TxReadWriteSet)
        → read_tx p d get_action env ≡ ok t
        → ¬ IsFreshTx w u t
        → Schedule w final u block kept n
        → Schedule w final u (env ∷ block) kept (suc n)

  -- The loop ends well, and has gone through the block as a schedule does.
  pub record Prepares (w : World) (out : ValidatedBlock) (u : UpdateSet) (block : List Bytes)
      (r : Result TxError ValidatedBlock × UpdateSet) : Type 0 where
    pub out' : ValidatedBlock
    pub final : UpdateSet
    pub kept : List Bytes
    pub rejected : ℕ
    pub run : r ≡ (ok out', final)
    pub batch : IsWfBatch final
    pub valid : out'.transactions ≡ out.transactions ++ kept
    pub invalid : length out'.invalid ≡ length out.invalid + rejected
    pub hash : out'.previous_block_hash ≡ out.previous_block_hash
    pub schedule : Schedule w final u block kept rejected

  with_valid : ValidatedBlock → Bytes → ValidatedBlock
  with_valid out env = record out { transactions = out.transactions ++ (env ∷ []) }

  with_invalid : ValidatedBlock → ValidatedBlock
  with_invalid out = record out { invalid = out.invalid ++ (rw_conflict_during_commit ∷ []) }

  module _ (db : Store) (w : World) (holds : Holds p d db w) where
    accept_run :
        (env : Bytes) (out : ValidatedBlock) (u u1 : UpdateSet) (t : TxReadWriteSet)
        → read_tx p d get_action env ≡ ok t
        → validate_tx p d db u t ≡ ok true
        → add_write_set_to_batch p d db t u ≡ (ok tt, u1)
        → prepare_tx p d get_action db out env u ≡ (ok (with_valid out env), u1)
    unfolding prepare_tx with_valid
    accept_run env out u u1 t read verdict add = ground arith

    reject_run :
        (env : Bytes) (out : ValidatedBlock) (u : UpdateSet) (t : TxReadWriteSet)
        → read_tx p d get_action env ≡ ok t
        → validate_tx p d db u t ≡ ok false
        → prepare_tx p d get_action db out env u ≡ (ok (with_invalid out), u)
    unfolding prepare_tx with_invalid
    reject_run env out u t read verdict = ground arith

    accept_step :
        (env : Bytes) (block : List Bytes) (out : ValidatedBlock) (u u1 : UpdateSet)
        (t : TxReadWriteSet)
        → read_tx p d get_action env ≡ ok t
        → validate_tx p d db u t ≡ ok true
        → IsFreshTx w u t
        → add_write_set_to_batch p d db t u ≡ (ok tt, u1)
        → SameWorld (effective w u1) (apply_tx (effective w u) t)
        → Prepares w
            (with_valid out env)
            u1
            block
            (prepare_all p d get_action db (with_valid out env) block u1)
        → Prepares w out u (env ∷ block) (prepare_all p d get_action db out (env ∷ block) u)
    unfolding prepare_all with_valid
    accept_step env block out u u1 t read verdict fresh add same rest = record {
      out' = rest.out';
      final = rest.final;
      kept = env ∷ rest.kept;
      rejected = rest.rejected;
      run = rw (accept_run env out u u1 t read verdict add) rest.run;
      batch = rest.batch;
      valid = rest.valid ∙ append_assoc out.transactions (env ∷ []) rest.kept;
      invalid = rest.invalid;
      hash = rest.hash;
      schedule = accept t read fresh (IsFreshTx-IsCurrent w u t.ns_rws fresh) same rest.schedule;
    }

    reject_step :
        (env : Bytes) (block : List Bytes) (out : ValidatedBlock) (u : UpdateSet)
        (t : TxReadWriteSet)
        → read_tx p d get_action env ≡ ok t
        → validate_tx p d db u t ≡ ok false
        → ¬ IsFreshTx w u t
        → Prepares w
            (with_invalid out)
            u
            block
            (prepare_all p d get_action db (with_invalid out) block u)
        → Prepares w out u (env ∷ block) (prepare_all p d get_action db out (env ∷ block) u)
    unfolding prepare_all with_invalid
    reject_step env block out u t read verdict stale rest = record {
      out' = rest.out';
      final = rest.final;
      kept = rest.kept;
      rejected = suc rest.rejected;
      run = rw (reject_run env out u t read verdict) rest.run;
      batch = rest.batch;
      valid = rest.valid;
      invalid =
          omega (arith, rest.invalid, length-append out.invalid (rw_conflict_during_commit ∷ []));
      hash = rest.hash;
      schedule = reject t read stale rest.schedule;
    }

    prepare_all-Prepares :
        (block : List Bytes) (out : ValidatedBlock) (u : UpdateSet)
        → IsReadable block
        → IsWfBatch u
        → Prepares w out u block (prepare_all p d get_action db out block u)
    unfolding prepare_all
    prepare_all-Prepares [] out u h wf = record {
      out' = out;
      final = u;
      kept = [];
      rejected = 0;
      run = refl;
      batch = wf;
      valid = sym (append-nil out.transactions);
      invalid = omega arith;
      hash = refl;
      schedule = done;
    }
    prepare_all-Prepares (env ∷ block) out u h wf =
        let (t, read, names) = h.0 in
        let (b, verdict, iff) = validate_tx_iff p d db w holds t u names in
        let (u1, add, same, wf1) = add_write_set_to_batch-Batches p d db w holds t u names wf in
        elim (Bool-cases b) [
          | inl e ↦
              accept_step env block out u u1 t read (rw e at verdict) (iff.0 e) add same
                (prepare_all-Prepares block (with_valid out env) u1 h.1 wf1)
          | inr e ↦
              reject_step env block out u t read (rw e at verdict) (λ f. cc (iff.1 f))
                (prepare_all-Prepares block (with_invalid out) u h.1 wf)
        ]

  -- On a store that holds the world `w`, `validate_and_prepare` goes through a block of readable
  -- envelopes and ends well: its valid transactions are those that a schedule from the empty batch
  -- accepts, in the order of the block, each of the others is counted as invalid, and the manager
  -- keeps its store and gets the batch at which the schedule ends.
  pub validate_and_prepare-Schedule :
      (m : LockBasedTxMgr d) (w : World) (previous_hash : Bytes) (block : List Bytes)
      → Holds p d m.db w
      → IsReadable block
      → (out : ValidatedBlock) × (final : UpdateSet) × (validate_and_prepare p d get_action m
            previous_hash block
          ≡ (ok out, record { db = m.db; update_set = some final }))
        × Schedule w final [] block out.transactions (length out.invalid)
        × IsWfBatch final
        × (out.previous_block_hash ≡ previous_hash)
  unfolding validate_and_prepare
  validate_and_prepare-Schedule m w previous_hash block holds h =
      let start : ValidatedBlock = record {
        previous_block_hash = previous_hash;
        transactions = [];
        invalid = [];
      } in
      let r = prepare_all-Prepares m.db w holds block start [] h IsWfBatch-empty in
      (
        r.out',
        r.final,
        ground (arith, r.run),
        rw (r.valid, r.invalid, zero-add r.rejected) r.schedule,
        r.batch,
        r.hash,
      )
