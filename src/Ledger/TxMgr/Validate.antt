-- ===== src/Ledger/TxMgr/Validate.antt =====
-- `validateTx`: which transactions are valid.
use fabric.Base.{
  ◌≡◌, ◌↔◌, refl, Bool, true, ◌&&◌, ◌==◌, ==_iff, nat_eq, list_eq, Bytes, List, [], ◌∷◌, All, arith,
  Result, ok, none, is_none,
}
use fabric.Base.Assoc.{lookup}
use fabric.Ledger.Wire.{ProtoBuffer}
use fabric.Ledger.Database.{Database}
use fabric.Ledger.RwSet.{KvRead, NsReadWriteSet, TxReadWriteSet}
use fabric.Ledger.CompositeKey.{HasNoSep, construct_composite_key}
use fabric.Ledger.World.{World, HasNamespaces}
use fabric.Ledger.TxMgr.{TxError, UpdateSet, validate_reads, validate_namespaces, validate_tx}
use fabric.Ledger.TxMgr.Effect.{Holds, effective, get_committed_version-eq}

-- The key of the read was not written by an earlier transaction of the block, and its version is
-- the committed one.
abbrev pub IsFreshRead : World → UpdateSet → Bytes → KvRead → Type 0
IsFreshRead w u ns r =
    (lookup (construct_composite_key ns r.key) u ≡ none) × ((w ns r.key).version ≡ r.version)

abbrev pub IsFreshTx : World → UpdateSet → TxReadWriteSet → Type 0
IsFreshTx w u t = All (λ n. All (IsFreshRead w u n.name_space) n.reads) t.ns_rws

-- The run returns a verdict, true exactly if `P` holds.
abbrev pub Answers : Type 0 → Result TxError Bool → Type 0
Answers P r = (b : Bool) × (r ≡ ok b) × ((b ≡ true) ↔ P)

module _ (p : ProtoBuffer) (d : Database) where
  open d use {Store}

  module _ (db : Store) (w : World) (holds : Holds p d db w) where
    validate_reads-Answers :
        (rs : List KvRead) (u : UpdateSet) (ns : Bytes)
        → HasNoSep ns
        → Answers (All (IsFreshRead w u ns) rs) (validate_reads p d db u ns rs)
    unfolding validate_reads
    validate_reads-Answers [] u ns h = (true, refl, (λ _. tt, λ _. refl))
    validate_reads-Answers (r ∷ rs) u ns h =
        let (b, run, iff) = validate_reads-Answers rs u ns h in
        (
          is_none (lookup (construct_composite_key ns r.key) u)
              && ((w ns r.key).version == r.version && b),
          ground (arith, get_committed_version-eq p d db w holds ns r.key h),
          ground (arith, ==_iff (w ns r.key).version r.version),
        )

    validate_namespaces-Answers :
        (ns : List NsReadWriteSet) (u : UpdateSet)
        → All (λ n. HasNoSep n.name_space) ns
        → Answers
            (All (λ n. All (IsFreshRead w u n.name_space) n.reads) ns)
            (validate_namespaces p d db u ns)
    unfolding validate_namespaces
    validate_namespaces-Answers [] u h = (true, refl, (λ _. tt, λ _. refl))
    validate_namespaces-Answers (n ∷ ns) u h =
        let (b, run, iff) = validate_reads-Answers n.reads u n.name_space h.0 in
        let (c, run', iff') = validate_namespaces-Answers ns u h.1 in
        (b && c, ground arith, ground arith)

    -- Against a store that holds the world `w` and a batch `u`, a transaction is valid exactly if
    -- each of its reads is of a key that the batch does not write, at the committed version.
    pub validate_tx_iff :
        (t : TxReadWriteSet) (u : UpdateSet)
        → HasNamespaces t
        → Answers (IsFreshTx w u t) (validate_tx p d db u t)
    unfolding validate_tx
    validate_tx_iff t u h = validate_namespaces-Answers t.ns_rws u h

fresh_reads-current :
    (w : World) (u : UpdateSet) (ns : Bytes) (rs : List KvRead)
    → All (IsFreshRead w u ns) rs
    → All (λ r. (effective w u ns r.key).version ≡ r.version) rs
fresh_reads-current w u ns [] h = tt
fresh_reads-current w u ns (r ∷ rs) h = (rw h.0.0 h.0.1, fresh_reads-current w u ns rs h.1)

-- What is fresh in this sense is current in the world that the batch stands for.
pub IsFreshTx-IsCurrent :
    (w : World) (u : UpdateSet) (ns : List NsReadWriteSet)
    → All (λ n. All (IsFreshRead w u n.name_space) n.reads) ns
    → All (λ n. All (λ r. (effective w u n.name_space r.key).version ≡ r.version) n.reads) ns
IsFreshTx-IsCurrent w u [] h = tt
IsFreshTx-IsCurrent w u (n ∷ ns) h =
    (fresh_reads-current w u n.name_space n.reads h.0, IsFreshTx-IsCurrent w u ns h.1)
