-- ===== src/Ledger/Simulator/Recorded.antt =====
-- What a simulation records is what it read and what it will write.
use fabric.Base.{
  ◌≡◌, refl, subst, false, ◌==◌, ==_iff, nat_eq, list_eq, Option, none, some, is_none, Bytes, [],
  ◌∷◌, arith, All, Bool-cases, inl, inr,
}
use fabric.Base.Assoc.{Assoc, lookup, insert}
use fabric.Ledger.Wire.{ProtoBuffer}
use fabric.Ledger.Database.{Database}
use fabric.Ledger.RwSet.{KvWrite, new_kv_read, set_value, new_kv_write}
use fabric.Ledger.CompositeKey.{HasNoSep}
use fabric.Ledger.World.{World}
use fabric.Ledger.TxMgr.Effect.{Holds}
use fabric.Ledger.Simulator.{
  NsRws, KvReadCache, LockBasedTxSimulator, holder, put_holder, set_state, get_state, written,
}
use fabric.Ledger.Simulator.View.{
  read_holder, write_holder, cache_of, state-get_state, state-set_state,
}

-- A recorded read names its key, with the version that the world has.
abbrev pub IsRead : World → Bytes → Bytes × KvReadCache → Type 0
IsRead w ns e =
    (e.1.kv_read.key ≡ e.0)
    × (e.1.kv_read.version ≡ (w ns e.0).version)
    × (e.1.cached_value ≡ (w ns e.0).value)

-- A recorded write names its key, and is marked a delete exactly if it has no value.
abbrev pub IsWritten : Bytes × KvWrite → Type 0
IsWritten e = (e.1.key ≡ e.0) × (e.1.is_delete ≡ is_none e.1.value)

pub record IsRecord (w : World) (ns : Bytes) (h : NsRws) : Type 0 where
  pub reads : All (IsRead w ns) h.read_map
  pub writes : All IsWritten h.write_map

-- All that a simulation has recorded against the world `w`.
abbrev pub IsRecorded : World → LockBasedTxSimulator → Type 0
IsRecorded w s = All (λ e. HasNoSep e.0 × IsRecord w e.0 e.1) s.rw_map

All-insert {ℓ} :
    {V : Type ℓ} (P : Bytes × V → Type 0) (k : Bytes) (v : V) (m : Assoc Bytes V)
    → P (k, v)
    → All P m
    → All P (insert k v m)
All-insert P k v [] h a = (h, tt)
All-insert P k v ((j, x) ∷ m) h a = elim (Bool-cases (j == k)) [
  | inl e ↦ rw e (h, a.1)
  | inr e ↦ rw e (a.0, All-insert P k v m h a.1)
]

pub All-lookup {ℓ} :
    {V : Type ℓ} (P : Bytes × V → Type 0) (k : Bytes) (v : V) (m : Assoc Bytes V)
    → All P m
    → lookup k m ≡ some v
    → P (k, v)
All-lookup P k v [] a e = absurd (ground arith)
All-lookup P k v ((j, x) ∷ m) a e = elim (Bool-cases (j == k)) [
  | inl h ↦
      let same : j ≡ k = (==_iff j k).0 h in
      let found : x ≡ v = ground (arith, e) in
      subst (λ y. P (k, y)) found (subst (λ i. P (i, x)) same a.0)
  | inr h ↦ All-lookup P k v m a.1 (ground arith)
]

holder-IsRecord :
    (w : World) (s : LockBasedTxSimulator) (ns : Bytes)
    → IsRecorded w s
    → IsRecord w ns (holder s ns)
holder-IsRecord w s ns r = go (lookup ns s.rw_map) refl
  where
    go : (o : Option NsRws) → lookup ns s.rw_map ≡ o → IsRecord w ns (holder s ns)
    go none e = rw e (record { reads = tt; writes = tt })
    go (some h) e = rw e (All-lookup (λ x. HasNoSep x.0 × IsRecord w x.0 x.1) ns h s.rw_map r e).1

pub put_holder-IsRecorded :
    (w : World) (s : LockBasedTxSimulator) (ns : Bytes) (h : NsRws)
    → HasNoSep ns
    → IsRecord w ns h
    → IsRecorded w s
    → IsRecorded w (put_holder ns h s)
unfolding put_holder
put_holder-IsRecorded w s ns h names r all =
    All-insert (λ e. HasNoSep e.0 × IsRecord w e.0 e.1) ns h s.rw_map (names, r) all

write_holder-IsRecord :
    (w : World) (ns key : Bytes) (value : Option Bytes) (h : NsRws)
    → IsRecord w ns h
    → IsRecord w ns (write_holder key value h)
unfolding write_holder
write_holder-IsRecord w ns key value h r = record {
  reads = r.reads;
  writes =
      All-insert IsWritten key (written (lookup key h.write_map) key value) h.write_map
        (go (lookup key h.write_map) refl) r.writes;
}
  where
    go : (o : Option KvWrite) → lookup key h.write_map ≡ o → IsWritten (key, written o key value)
    go none e = unfold written new_kv_write in (refl, refl)
    go (some x) e =
        unfold written set_value in ((All-lookup IsWritten key x h.write_map r.writes e).0, refl)

pub put_holder-finished :
    (s : LockBasedTxSimulator) (ns : Bytes) (h : NsRws)
    → s.finished ≡ false
    → (put_holder ns h s).finished ≡ false
unfolding put_holder
put_holder-finished s ns h running = running

pub read-IsRecord :
    (w : World) (s : LockBasedTxSimulator) (ns key : Bytes)
    → IsRecorded w s
    → IsRecord w ns record (holder s ns) {
      read_map = insert key (cache_of key (w ns key)) (holder s ns).read_map;
    }
unfolding cache_of new_kv_read
read-IsRecord w s ns key recorded =
    let r = holder-IsRecord w s ns recorded in
    record {
      reads =
          All-insert (IsRead w ns) key (cache_of key (w ns key)) (holder s ns).read_map
            (refl, refl, refl) r.reads;
      writes = r.writes;
    }

module _ (p : ProtoBuffer) (d : Database) where
  open d use {Store}

  module _ (db : Store) (w : World) (holds : Holds p d db w) (s : LockBasedTxSimulator)
      (ns key : Bytes) (names : HasNoSep ns) (recorded : IsRecorded w s) where
    read_holder-IsRecord : IsRecord w ns (read_holder p d db ns key (holder s ns))
    unfolding read_holder cache_of new_kv_read
    read_holder-IsRecord =
        let h = holder s ns in
        let r = holder-IsRecord w s ns recorded in
        let more = read-IsRecord w s ns key recorded in ground (arith, holds ns key names, r, more)

    after_two_puts :
        (h : NsRws)
        → IsRecord w ns h
        → IsRecorded w (put_holder ns h (put_holder ns (holder s ns) s))
    after_two_puts h r = put_holder-IsRecorded w (put_holder ns (holder s ns) s) ns h names r (
        put_holder-IsRecorded w s ns (holder s ns) names (holder-IsRecord w s ns recorded) recorded)

    pub get_state-IsRecorded : s.finished ≡ false → IsRecorded w (get_state p d db ns key s).1
    get_state-IsRecorded running = elim (state-get_state p d db s ns key running) [
      | inl e ↦ rw e (
          put_holder-IsRecorded w s ns (holder s ns) names (holder-IsRecord w s ns recorded)
            recorded)
      | inr e ↦ rw e (after_two_puts (read_holder p d db ns key (holder s ns)) read_holder-IsRecord)
    ]

    pub set_state-IsRecorded :
        (value : Option Bytes) → s.finished ≡ false → IsRecorded w (set_state ns key value s).1
    set_state-IsRecorded value running = rw (state-set_state p d s ns key value running) (
        after_two_puts (write_holder key value (holder s ns))
          (write_holder-IsRecord w ns key value (holder s ns) (holder-IsRecord w s ns recorded)))
