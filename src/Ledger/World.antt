-- ===== src/Ledger/World.antt =====
-- What the ledger promises: a map from namespaces and keys to versioned values, and transactions
-- that run on it one after another.
use fabric.Base.{
  ◌≡◌, ◌∙◌, ◌&&◌, if◌then◌else◌, ◌==◌, nat_eq, list_eq, pair_eq, Bytes, List, [], ◌∷◌, All, arith,
  ◌+◌, ◌%◌, ◌^◌,
}
use fabric.Ledger.RwSet.{KvWrite, NsReadWriteSet, TxReadWriteSet}
use fabric.Ledger.CompositeKey.{HasNoSep}
use fabric.Ledger.StoredValue.{VersionedValue}

abbrev pub World : Type 0
World = Bytes → Bytes → VersionedValue

abbrev pub update : World → Bytes → Bytes → VersionedValue → World
update w ns key vv ns' key' = if ns == ns' && key == key' then vv else w ns' key'

-- A write puts its value in place, under the next version.
unfoldable pub apply_write : World → Bytes → KvWrite → World
apply_write w ns kv =
    update w ns kv.key (record { value = kv.value; version = ((w ns kv.key).version + 1) % 2 ^ 64 })

unfoldable pub apply_writes : World → Bytes → List KvWrite → World
apply_writes w ns [] = w
apply_writes w ns (kv ∷ kvs) = apply_writes (apply_write w ns kv) ns kvs

unfoldable pub apply_namespaces : World → List NsReadWriteSet → World
apply_namespaces w [] = w
apply_namespaces w (n ∷ ns) = apply_namespaces (apply_writes w n.name_space n.writes) ns

unfoldable pub apply_tx : World → TxReadWriteSet → World
unfolding apply_write apply_writes apply_namespaces
apply_tx w t = apply_namespaces w t.ns_rws

-- Each read saw the version that the world has now.
abbrev pub IsCurrent : World → TxReadWriteSet → Type 0
IsCurrent w t = All (λ n. All (λ r. (w n.name_space r.key).version ≡ r.version) n.reads) t.ns_rws

abbrev pub HasNamespaces : TxReadWriteSet → Type 0
HasNamespaces t = All (λ n. HasNoSep n.name_space) t.ns_rws

-- The same values and versions at every namespace that has no zero byte.
abbrev pub SameWorld : World → World → Type 0
SameWorld v w = (ns key : Bytes) → HasNoSep ns → v ns key ≡ w ns key

pub SameWorld-apply_write :
    (v w : World) (ns : Bytes) (kv : KvWrite)
    → HasNoSep ns
    → SameWorld v w
    → SameWorld (apply_write v ns kv) (apply_write w ns kv)
unfolding apply_write
SameWorld-apply_write v w ns kv h same ns' key' h' = ground (arith, same ns kv.key, same ns' key')

pub SameWorld-apply_writes :
    (kvs : List KvWrite) (v w : World) (ns : Bytes)
    → HasNoSep ns
    → SameWorld v w
    → SameWorld (apply_writes v ns kvs) (apply_writes w ns kvs)
unfolding apply_writes
SameWorld-apply_writes [] v w ns h same = same
SameWorld-apply_writes (kv ∷ kvs) v w ns h same =
    SameWorld-apply_writes kvs (apply_write v ns kv) (apply_write w ns kv) ns h
      (SameWorld-apply_write v w ns kv h same)

pub SameWorld-apply_namespaces :
    (ns : List NsReadWriteSet) (v w : World)
    → All (λ n. HasNoSep n.name_space) ns
    → SameWorld v w
    → SameWorld (apply_namespaces v ns) (apply_namespaces w ns)
unfolding apply_namespaces
SameWorld-apply_namespaces [] v w h same = same
SameWorld-apply_namespaces (n ∷ ns) v w h same =
    SameWorld-apply_namespaces ns (apply_writes v n.name_space n.writes)
      (apply_writes w n.name_space n.writes) h.1
      (SameWorld-apply_writes n.writes v w n.name_space h.0 same)

pub SameWorld-trans : {u v w : World} → SameWorld u v → SameWorld v w → SameWorld u w
SameWorld-trans p q ns key h = p ns key h ∙ q ns key h
