-- ===== src/Ledger/Simulator/Results.antt =====
-- What a simulation hands over is valid against the state on which it ran.
use mathlib.Core.List.{append-nil}
use fabric.Base.{
  ◌≡◌, refl, sym, ap, subst, true, Option, none, some, is_none, Bytes, List, [], ◌∷◌, map, length,
  nat_eq, list_eq, ok, All,
}
use fabric.Base.Assoc.{Assoc, lookup}
use fabric.Ledger.Wire.{ProtoBuffer, IsLen}
use fabric.Ledger.Database.{Database}
use fabric.Ledger.RwSet.{
  KvRead, KvWrite, NsReadWriteSet, TxReadWriteSet, or_empty, marshal, unmarshal,
}
use fabric.Ledger.RwSet.RoundTrip.{IsWfRead, IsWfWrite, IsWfNs, IsWfTx, unmarshal-marshal}
use fabric.Ledger.CompositeKey.{HasNoSep}
use fabric.Ledger.World.{World}
use fabric.Ledger.TxMgr.{validate_tx}
use fabric.Ledger.TxMgr.Effect.{Holds}
use fabric.Ledger.TxMgr.Validate.{IsFreshRead, validate_tx_iff}
use fabric.Ledger.Simulator.{
  NsRws, LockBasedTxSimulator, entries_at, get_sorted_keys, ns_rw_set, get_tx_read_write_set,
  get_tx_simulation_results, new_tx_simulator,
}
use fabric.Ledger.Simulator.Recorded.{IsRead, IsWritten, IsRecord, IsRecorded, All-lookup}
use fabric.Ledger.Simulator.Calls.{Call, IsOwn, simulate, simulate_new-IsRecorded}

All-map {ℓ κ} :
    {A : Type ℓ} {B : Type κ} (f : A → B) (P : A → Type 0) (Q : B → Type 0)
    → ((a : A) → P a → Q (f a))
    → (xs : List A) → All P xs
    → All Q (map f xs)
All-map f P Q imp [] h = tt
All-map f P Q imp (x ∷ xs) h = (imp x h.0, All-map f P Q imp xs h.1)

-- What the set of a namespace says: fresh reads, and marked writes.
abbrev IsGoodNs : World → NsReadWriteSet → Type 0
IsGoodNs w n =
    HasNoSep n.name_space
    × All (λ r. (w n.name_space r.key).version ≡ r.version) n.reads
    × All (λ x. x.is_delete ≡ is_none x.value) n.writes

module _ (order : List Bytes → List Bytes) where
  entries_at-All {ℓ} :
      {V : Type ℓ} (P : Bytes × V → Type 0) (ks : List Bytes) (m : Assoc Bytes V)
      → All P m
      → All P (entries_at order ks m)
  unfolding entries_at
  entries_at-All P [] m a = tt
  entries_at-All {V} P (k ∷ ks) m a = go (lookup k m) refl (entries_at-All P ks m a)
    where
      go :
          (o : Option V)
          → lookup k m ≡ o
          → All P (entries_at order ks m)
          → All P (entries_at order (k ∷ ks) m)
      go none e rest = rw (e, entries_at) rest
      go (some v) e rest = rw (e, entries_at) (All-lookup P k v m a e, rest)

  ns_rw_set-IsGoodNs :
      (w : World) (e : Bytes × NsRws)
      → HasNoSep e.0 × IsRecord w e.0 e.1
      → IsGoodNs w (ns_rw_set order e)
  unfolding ns_rw_set
  ns_rw_set-IsGoodNs w (ns, h) (names, r) = (
    names,
    All-map (λ c. c.1.kv_read) (IsRead w ns) (λ r. (w ns r.key).version ≡ r.version)
        (λ c i. rw i.0 (sym i.1)) (entries_at order (get_sorted_keys order h.read_map) h.read_map)
        (entries_at-All (IsRead w ns) (get_sorted_keys order h.read_map) h.read_map r.reads),
    All-map (λ x. x.1) IsWritten (λ x. x.is_delete ≡ is_none x.value) (λ x i. i.1)
        (entries_at order (get_sorted_keys order h.write_map) h.write_map)
        (entries_at-All IsWritten (get_sorted_keys order h.write_map) h.write_map r.writes),
  )

  rw_set-IsGood :
      (w : World) (s : LockBasedTxSimulator)
      → IsRecorded w s
      → All (IsGoodNs w) (get_tx_read_write_set order s).ns_rws
  unfolding get_tx_read_write_set
  rw_set-IsGood w s r =
      All-map (ns_rw_set order) (λ e. HasNoSep e.0 × IsRecord w e.0 e.1) (IsGoodNs w)
        (ns_rw_set-IsGoodNs w) (entries_at order (get_sorted_keys order s.rw_map) s.rw_map)
        (entries_at-All (λ e. HasNoSep e.0 × IsRecord w e.0 e.1) (get_sorted_keys order s.rw_map)
          s.rw_map r)

-- The sizes of a transaction are such as Go can hold.
abbrev pub IsSizedNs : NsReadWriteSet → Type 0
IsSizedNs n =
    IsLen (length n.name_space)
    × IsLen (length n.reads)
    × IsLen (length n.writes)
    × All IsWfRead n.reads
    × All (λ x. IsLen (length x.key) × IsLen (length (or_empty x.value))) n.writes

abbrev pub IsSizedTx : TxReadWriteSet → Type 0
IsSizedTx t = IsLen (length t.ns_rws) × All IsSizedNs t.ns_rws

writes-IsWf :
    (ws : List KvWrite)
    → All (λ x. IsLen (length x.key) × IsLen (length (or_empty x.value))) ws
    → All (λ x. x.is_delete ≡ is_none x.value) ws
    → All IsWfWrite ws
writes-IsWf [] s g = tt
writes-IsWf (x ∷ xs) s g =
    (record { key_len = s.0.0; value_len = s.0.1; marked = g.0 }, writes-IsWf xs s.1 g.1)

module _ (w : World) where
  namespaces-IsWf :
      (ns : List NsReadWriteSet) → All IsSizedNs ns → All (IsGoodNs w) ns → All IsWfNs ns
  namespaces-IsWf [] s g = tt
  namespaces-IsWf (n ∷ ns) s g = (
    record {
      ns_len = s.0.0;
      reads_len = s.0.1;
      writes_len = s.0.2;
      reads_wf = s.0.3;
      writes_wf = writes-IsWf n.writes s.0.4 g.0.2;
    },
    namespaces-IsWf ns s.1 g.1,
  )

  namespaces-names :
      (ns : List NsReadWriteSet) → All (IsGoodNs w) ns → All (λ n. HasNoSep n.name_space) ns
  namespaces-names [] g = tt
  namespaces-names (n ∷ ns) g = (g.0.0, namespaces-names ns g.1)

  reads-fresh :
      (ns : Bytes) (rs : List KvRead)
      → All (λ r. (w ns r.key).version ≡ r.version) rs
      → All (IsFreshRead w [] ns) rs
  reads-fresh ns [] g = tt
  reads-fresh ns (r ∷ rs) g = ((refl, g.0), reads-fresh ns rs g.1)

  namespaces-fresh :
      (ns : List NsReadWriteSet)
      → All (IsGoodNs w) ns
      → All (λ n. All (IsFreshRead w [] n.name_space) n.reads) ns
  namespaces-fresh [] g = tt
  namespaces-fresh (n ∷ ns) g = (reads-fresh n.name_space n.reads g.0.1, namespaces-fresh ns g.1)

module _ (p : ProtoBuffer) (d : Database) (order : List Bytes → List Bytes) where
  open d use {Store}

  -- Take any reads and writes of keys, and `Next` of iterators over ranges in which the iterators
  -- meet only entries of their own namespace, with the values and versions of the world. In whatever
  -- order Go enumerates its maps: the results of a transaction that made these calls, on a store
  -- that holds the world, are read back as the read-write set that they were written from, and that
  -- set is valid against the same store before any other transaction of a block.
  pub simulate-valid :
      (db : Store) (w : World) (calls : List Call)
      → Holds p d db w
      → All (IsOwn p w) calls
      → IsSizedTx (get_tx_read_write_set order (simulate p d db new_tx_simulator calls))
      → let s = simulate p d db new_tx_simulator calls in
        (unmarshal p (get_tx_simulation_results order p s) ≡ ok (get_tx_read_write_set order s))
        × (validate_tx p d db [] (get_tx_read_write_set order s) ≡ ok true)
  unfolding get_tx_simulation_results
  simulate-valid db w calls holds names sized =
      let s = simulate p d db new_tx_simulator calls in
      let t = get_tx_read_write_set order s in
      let good = rw_set-IsGood order w s (simulate_new-IsRecorded p d db w calls holds names) in
      let wf : IsWfTx t = record {
        entries_len = sized.0;
        entries_wf = namespaces-IsWf w t.ns_rws sized.1 good;
      } in
      let (b, verdict, iff) =
        validate_tx_iff p d db w holds t [] (namespaces-names w t.ns_rws good) in
      (
        subst (λ x. unmarshal p x ≡ ok t) (append-nil (marshal p t)) (unmarshal-marshal p t [] wf),
        rw verdict (ap ok (iff.1 (namespaces-fresh w t.ns_rws good))),
      )
