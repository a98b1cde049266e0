-- ===== src/Ledger/RwSet/RoundTrip.antt =====
-- Reading back what `Marshal` of rwset.go writes.
use mathlib.Core.List.{append_assoc}
use fabric.Base.{
  ℕ, ◌≡◌, refl, Bool, true, false, lt→ltb, ◌==◌, nat_eq, Option, none, some, is_none, Bytes, List,
  [], ◌∷◌, ◌++◌, length, All, ok, arith,
}
use fabric.Ledger.Wire.{ProtoBuffer, Reader, IsU64, IsLen}
use fabric.Ledger.RwSet.{
  KvRead, KvWrite, NsReadWriteSet, TxReadWriteSet, write_all, read_all, loop_count, delete_marker,
  or_empty, marshal_read, marshal_write, marshal_value, marshal_ns, marshal, unmarshal_read,
  unmarshal_value, unmarshal_write, unmarshal_ns, unmarshal,
}

-- A read and a write that Go can hold. A write is marked a delete exactly if its value is nil, as
-- `new_kv_write` and `set_value` leave it.
pub record IsWfRead (r : KvRead) : Type 0 where
  pub key_len : IsLen (length r.key)
  pub version_u64 : IsU64 r.version

pub record IsWfWrite (w : KvWrite) : Type 0 where
  pub key_len : IsLen (length w.key)
  pub value_len : IsLen (length (or_empty w.value))
  pub marked : w.is_delete ≡ is_none w.value

pub record IsWfNs (n : NsReadWriteSet) : Type 0 where
  pub ns_len : IsLen (length n.name_space)
  pub reads_len : IsLen (length n.reads)
  pub writes_len : IsLen (length n.writes)
  pub reads_wf : All IsWfRead n.reads
  pub writes_wf : All IsWfWrite n.writes

pub record IsWfTx (t : TxReadWriteSet) : Type 0 where
  pub entries_len : IsLen (length t.ns_rws)
  pub entries_wf : All IsWfNs t.ns_rws

loop_count_of_len : (n : ℕ) → IsLen n → loop_count n ≡ n
loop_count_of_len n h = rw (lt→ltb _ _ h)

-- Reading as many values as were written gives them back, if each of them is read back.
read_all-write_all :
    {A : Type 0} (P : A → Type 0) (w : A → Bytes) (r : Reader A)
    → ((x : A) (rest : Bytes) → P x → r (w x ++ rest) ≡ ok (x, rest))
    → (xs : List A) (rest : Bytes) → All P xs
    → read_all r (length xs) (write_all w xs ++ rest) ≡ ok (xs, rest)
unfolding read_all
read_all-write_all P w r each [] rest h = refl
read_all-write_all P w r each (x ∷ xs) rest h = rw (
  append_assoc (w x),
  each x (write_all w xs ++ rest) h.0,
  read_all-write_all P w r each xs rest h.1,
)

marker-IsU64 : (d : Bool) → IsU64 (delete_marker d)
unfolding delete_marker
marker-IsU64 true = omega arith
marker-IsU64 false = omega arith

marker_lem : (d : Bool) → (delete_marker d == 1) ≡ d
unfolding delete_marker
marker_lem true = refl
marker_lem false = refl

module _ (p : ProtoBuffer) where
  open p use {encode_varint, encode_string, encode_raw, varint_lem, string_lem, raw_lem}

  unmarshal-marshal_read :
      (r : KvRead) (rest : Bytes)
      → IsWfRead r
      → unmarshal_read p (marshal_read p r ++ rest) ≡ ok (r, rest)
  unfolding marshal_read unmarshal_read
  unmarshal-marshal_read r rest h = rw (
    append_assoc (encode_string r.key),
    string_lem r.key _ h.key_len,
    varint_lem r.version rest h.version_u64,
  )

  unmarshal-marshal_value :
      (key : Bytes) (d : Bool) (v : Option Bytes) (rest : Bytes)
      → IsLen (length (or_empty v))
      → d ≡ is_none v
      → unmarshal_value p key d (marshal_value p d v ++ rest)
        ≡ ok (record { key = key; is_delete = d; value = v }, rest)
  unfolding marshal_value unmarshal_value
  unmarshal-marshal_value key true none rest h e = refl
  unmarshal-marshal_value key false (some v) rest h e = rw (raw_lem v rest h)
  unmarshal-marshal_value key true (some v) rest h e = cc
  unmarshal-marshal_value key false none rest h e = cc

  unmarshal-marshal_write :
      (w : KvWrite) (rest : Bytes)
      → IsWfWrite w
      → unmarshal_write p (marshal_write p w ++ rest) ≡ ok (w, rest)
  unfolding marshal_write unmarshal_write
  unmarshal-marshal_write w rest h =
      rw
        (
          append_assoc (encode_string w.key),
          string_lem w.key _ h.key_len,
          append_assoc (encode_varint (delete_marker w.is_delete)),
          varint_lem (delete_marker w.is_delete) _ (marker-IsU64 w.is_delete),
          marker_lem w.is_delete,
        )
        (unmarshal-marshal_value w.key w.is_delete w.value rest h.value_len h.marked)

  unmarshal-marshal_ns :
      (n : NsReadWriteSet) (rest : Bytes)
      → IsWfNs n
      → unmarshal_ns p (marshal_ns p n ++ rest) ≡ ok (n, rest)
  unfolding marshal_ns unmarshal_ns
  unmarshal-marshal_ns n rest h = rw (
    append_assoc (encode_string n.name_space),
    string_lem n.name_space _ h.ns_len,
    append_assoc (encode_varint (length n.reads)),
    varint_lem (length n.reads) _ (omega (arith, h.reads_len)),
    loop_count_of_len (length n.reads) h.reads_len,
    append_assoc (write_all (marshal_read p) n.reads),
    read_all-write_all IsWfRead (marshal_read p) (unmarshal_read p) unmarshal-marshal_read n.reads _
        h.reads_wf,
    append_assoc (encode_varint (length n.writes)),
    varint_lem (length n.writes) _ (omega (arith, h.writes_len)),
    loop_count_of_len (length n.writes) h.writes_len,
    read_all-write_all IsWfWrite (marshal_write p) (unmarshal_write p) unmarshal-marshal_write
        n.writes rest h.writes_wf,
  )

  -- A transaction whose writes are marked deletes exactly if their values are nil, and which is of
  -- sizes that Go can hold, is read back whole from its serialised form, whatever bytes follow.
  pub unmarshal-marshal :
      (t : TxReadWriteSet) (rest : Bytes) → IsWfTx t → unmarshal p (marshal p t ++ rest) ≡ ok t
  unfolding marshal unmarshal
  unmarshal-marshal t rest h = rw (
    append_assoc (encode_varint (length t.ns_rws)),
    varint_lem (length t.ns_rws) _ (omega (arith, h.entries_len)),
    loop_count_of_len (length t.ns_rws) h.entries_len,
    read_all-write_all IsWfNs (marshal_ns p) (unmarshal_ns p) unmarshal-marshal_ns t.ns_rws rest
        h.entries_wf,
  )
