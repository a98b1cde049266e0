-- ===== src/Ledger/RwSet.antt =====
-- core/ledger/kvledger/txmgmt/rwset.go: the reads and writes of a simulated transaction, and their
-- serialised form.
pub mod RoundTrip
use fabric.Base.{
  ℕ, zero, suc, ◌^◌, Bool, true, false, if◌then◌else◌, ltb, ◌==◌, nat_eq, Option, none, some,
  is_none, Bytes, List, [], ◌∷◌, ◌++◌, length, Result, ok, err, ◌>>=◌,
}
use fabric.Ledger.Wire.{ProtoBuffer, Reader, WireError}

pub record KvRead : Type 0 where
  pub key : Bytes
  pub version : ℕ

-- A nil value is a delete.
pub record KvWrite : Type 0 where
  pub key : Bytes
  pub is_delete : Bool
  pub value : Option Bytes

unfoldable pub new_kv_read : Bytes → ℕ → KvRead
new_kv_read key version = record { key = key; version = version }

unfoldable pub new_kv_write : Bytes → Option Bytes → KvWrite
new_kv_write key value = record { key = key; is_delete = is_none value; value = value }

unfoldable pub set_value : KvWrite → Option Bytes → KvWrite
set_value w value = record w { value = value; is_delete = is_none value }

pub record NsReadWriteSet : Type 0 where
  pub name_space : Bytes
  pub reads : List KvRead
  pub writes : List KvWrite

pub record TxReadWriteSet : Type 0 where
  pub ns_rws : List NsReadWriteSet

-- The writers append to a buffer and never fail; each returns what it appends.
abbrev pub write_all {ℓ} : {A : Type ℓ} → (A → Bytes) → List A → Bytes
write_all w [] = []
write_all w (x ∷ xs) = w x ++ write_all w xs

-- `for i := 0; i < int(n); i++`: from 2^63 on the conversion is negative and the loop does not run.
abbrev pub loop_count : ℕ → ℕ
loop_count n = if ltb n (2 ^ 63) then n else 0

unfoldable pub read_all : {A : Type 0} → Reader A → ℕ → Reader (List A)
read_all r zero b = ok ([], b)
read_all r (suc n) b = do (x, b1) ← r b; (xs, b2) ← read_all r n b1; ok (x ∷ xs, b2)

delete_marker : Bool → ℕ
delete_marker true = 1
delete_marker false = 0

abbrev pub or_empty : Option Bytes → Bytes
or_empty none = []
or_empty (some v) = v

module _ (p : ProtoBuffer) where
  open p use {encode_varint, encode_string, encode_raw, decode_varint, decode_string, decode_raw}

  pub marshal_read : KvRead → Bytes
  marshal_read r = encode_string r.key ++ encode_varint r.version

  pub unmarshal_read : Reader KvRead
  unmarshal_read b = do
    (key, b1) ← decode_string b
    (version, b2) ← decode_varint b1
    ok (record { key = key; version = version }, b2)

  marshal_value : Bool → Option Bytes → Bytes
  marshal_value true v = []
  marshal_value false v = encode_raw (or_empty v)

  pub marshal_write : KvWrite → Bytes
  unfolding delete_marker marshal_value
  marshal_write w =
      encode_string w.key
      ++ (encode_varint (delete_marker w.is_delete) ++ marshal_value w.is_delete w.value)

  unmarshal_value : Bytes → Bool → Reader KvWrite
  unmarshal_value key true b = ok (record { key = key; is_delete = true; value = none }, b)
  unmarshal_value key false b = do
    (v, b1) ← decode_raw b
    ok (record { key = key; is_delete = false; value = some v }, b1)

  pub unmarshal_write : Reader KvWrite
  unfolding unmarshal_value
  unmarshal_write b = do
    (key, b1) ← decode_string b
    (marker, b2) ← decode_varint b1
    unmarshal_value key (marker == 1) b2

  pub marshal_ns : NsReadWriteSet → Bytes
  marshal_ns n =
      encode_string n.name_space
      ++ (encode_varint (length n.reads)
          ++ (write_all marshal_read n.reads
              ++ (encode_varint (length n.writes) ++ write_all marshal_write n.writes)))

  pub unmarshal_ns : Reader NsReadWriteSet
  unmarshal_ns b = do
    (ns, b1) ← decode_string b
    (num_reads, b2) ← decode_varint b1
    (reads, b3) ← read_all unmarshal_read (loop_count num_reads) b2
    (num_writes, b4) ← decode_varint b3
    (writes, b5) ← read_all unmarshal_write (loop_count num_writes) b4
    ok (record { name_space = ns; reads = reads; writes = writes }, b5)

  unfoldable pub marshal : TxReadWriteSet → Bytes
  unfolding marshal_read marshal_write marshal_ns
  marshal t = encode_varint (length t.ns_rws) ++ write_all marshal_ns t.ns_rws

  -- What follows the entries is not looked at.
  unfoldable pub unmarshal : Bytes → Result WireError TxReadWriteSet
  unfolding unmarshal_read unmarshal_write unmarshal_ns read_all
  unmarshal b = do
    (num_entries, b1) ← decode_varint b
    (entries, b2) ← read_all unmarshal_ns (loop_count num_entries) b1
    ok (record { ns_rws = entries })
