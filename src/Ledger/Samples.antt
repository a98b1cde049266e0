-- ===== src/Ledger/Samples.antt =====
-- A wire format, a store in memory and a block, with the theorems of the ledger applied to them.
use fabric.Base.{
  ℕ, zero, suc, ◌^◌, ◌<◌, ◌≡◌, refl, true, false, nat_eq, list_eq, Option, none, some, Bytes, List,
  [], ◌∷◌, ◌++◌, length, All, Result, ok, err, arith,
}
use fabric.Base.Assoc.{Assoc, lookup, insert, lookup-insert}
use fabric.Ledger.OrderedNumbers.{encode_order_preserving, decode_order_preserving, decode-encode}
use fabric.Ledger.Wire.{ProtoBuffer, malformed, Reader}
use fabric.Ledger.Database.{Database, after_puts, DbError}
use fabric.Ledger.RwSet.{TxReadWriteSet, marshal, unmarshal}
use fabric.Ledger.RwSet.RoundTrip.{unmarshal-marshal, IsWfTx}
use fabric.Ledger.CompositeKey.{HasNoSep, construct_composite_key, split_composite_key}
use fabric.Ledger.StoredValue.{VersionedValue, encode_value, decode_value}
use fabric.Ledger.World.{World}
use fabric.Ledger.TxMgr.{
  TxError, UpdateSet, LockBasedTxMgr, ValidatedBlock, rw_conflict_during_commit, read_tx,
  validate_and_prepare, prepare_all, prepare_tx, keep_valid, validate_tx, validate_namespaces,
  validate_reads, get_committed_version, get_committed_value_and_version, add_write_set_to_batch,
  add_namespaces, add_writes, add_write, commit,
}
use fabric.Ledger.TxMgr.Effect.{Holds, IsWfBatch}
use fabric.Ledger.TxMgr.Validate.{IsFreshTx, Answers, validate_tx_iff}
use fabric.Ledger.TxMgr.Prepare.{IsReadable, Schedule, validate_and_prepare-Schedule}
use fabric.Ledger.TxMgr.Commit.{Serial, commit-Serial}
use fabric.Ledger.Simulator.{
  LockBasedTxSimulator, new_tx_simulator, set_state, get_state, put_holder, written,
  get_tx_read_write_set, ns_rw_set, entries_at, get_sorted_keys, get_tx_simulation_results,
  scan_next,
}
use fabric.Ledger.Simulator.View.{seen, get_state-seen, seen-set_state}
use fabric.Ledger.Simulator.Calls.{Call, get, put, next, IsOwn, simulate}
use fabric.Ledger.Simulator.Results.{IsSizedTx, simulate-valid}

-- A number is one cell, and bytes are their number and themselves.
read_number : Reader ℕ
read_number [] = err malformed
read_number (n ∷ rest) = ok (n, rest)

split_bytes : ℕ → Reader Bytes
split_bytes zero b = ok ([], b)
split_bytes (suc n) [] = err malformed
split_bytes (suc n) (c ∷ b) = elim (split_bytes n b) [ err e ↦ err e | ok r ↦ ok (c ∷ r.0, r.1) ]

read_bytes : Reader Bytes
read_bytes [] = err malformed
read_bytes (n ∷ rest) = split_bytes n rest

peek_number : Bytes → ℕ × ℕ
peek_number [] = (0, 0)
peek_number (n ∷ rest) = (n, 1)

split_bytes-append : (s rest : Bytes) → split_bytes (length s) (s ++ rest) ≡ ok (s, rest)
unfolding split_bytes
split_bytes-append [] rest = refl
split_bytes-append (c ∷ s) rest = rw (split_bytes-append s rest)

read_bytes-append :
    (s rest : Bytes) → length s < 2 ^ 63 → read_bytes ((length s ∷ s) ++ rest) ≡ ok (s, rest)
unfolding read_bytes
read_bytes-append s rest h = split_bytes-append s rest

read_number-append :
    (n : ℕ) (rest : Bytes) → n < 2 ^ 64 → read_number ((n ∷ []) ++ rest) ≡ ok (n, rest)
unfolding read_number
read_number-append n rest h = refl

peek_number-append :
    (n : ℕ) (rest : Bytes) → n < 2 ^ 64 → peek_number ((n ∷ []) ++ rest) ≡ (n, length (n ∷ []))
unfolding peek_number
peek_number-append n rest h = refl

abbrev toy_wire : ProtoBuffer
toy_wire = record {
  encode_varint = λ n. n ∷ [];
  encode_string = λ s. length s ∷ s;
  encode_raw = λ s. length s ∷ s;
  decode_varint = read_number;
  decode_string = read_bytes;
  decode_raw = read_bytes;
  peek_varint = peek_number;
  varint_lem = read_number-append;
  string_lem = read_bytes-append;
  raw_lem = read_bytes-append;
  peek_lem = peek_number-append;
}

put_all : Assoc Bytes Bytes → List (Bytes × Bytes) → Assoc Bytes Bytes
put_all s [] = s
put_all s ((k, v) ∷ batch) = put_all (insert k v s) batch

lookup-put_all :
    (batch : List (Bytes × Bytes)) (s : Assoc Bytes Bytes) (k : Bytes)
    → lookup k (put_all s batch) ≡ after_puts batch k (lookup k s)
unfolding put_all
lookup-put_all [] s k = refl
lookup-put_all ((j, v) ∷ batch) s k =
    rw (lookup-put_all batch (insert j v s) k, lookup-insert j k v s)

memory_get : Assoc Bytes Bytes → Bytes → Result DbError (Option Bytes)
memory_get s k = ok (lookup k s)

memory_write : Assoc Bytes Bytes → List (Bytes × Bytes) → Result DbError (Assoc Bytes Bytes)
memory_write s batch = ok (put_all s batch)

memory_law :
    (s t : Assoc Bytes Bytes) (batch : List (Bytes × Bytes)) (k : Bytes) (v w : Option Bytes)
    → memory_write s batch ≡ ok t
    → memory_get s k ≡ ok v
    → memory_get t k ≡ ok w
    → w ≡ after_puts batch k v
unfolding memory_get memory_write
memory_law s t batch k v w e f g = ground (arith, lookup-put_all batch s k)

abbrev memory : Database
memory = record {
  Store = Assoc Bytes Bytes;
  get = memory_get;
  write_batch = memory_write;
  entries = λ s a b. s;
  get-write_batch = memory_law;
}

-- Two transactions that read the key "a" at version 0 and write it.
abbrev both_write : TxReadWriteSet
both_write = record {
  ns_rws =
      record {
        name_space = b'n' ∷ [];
        reads = record { key = b'a' ∷ []; version = 0 } ∷ [];
        writes = record { key = b'a' ∷ []; is_delete = false; value = some (7 ∷ []) } ∷ [];
      }
      ∷ [];
}

both_write-IsWf : IsWfTx both_write
both_write-IsWf = record {
  entries_len = omega arith;
  entries_wf = (
    record {
      ns_len = omega arith;
      reads_len = omega arith;
      writes_len = omega arith;
      reads_wf = (record { key_len = omega arith; version_u64 = omega arith }, tt);
      writes_wf = (record { key_len = omega arith; value_len = omega arith; marked = refl }, tt);
    },
    tt,
  );
}

unmarshal-marshal_example :
    unmarshal toy_wire (marshal toy_wire both_write ++ (9 ∷ [])) ≡ ok both_write
unmarshal-marshal_example = unmarshal-marshal toy_wire both_write (9 ∷ []) both_write-IsWf

abbrev genesis : World
genesis ns key = record { value = none; version = 0 }

genesis-Holds : Holds toy_wire memory [] genesis
unfolding get_committed_value_and_version memory_get
genesis-Holds ns key h = refl

names_n : HasNoSep (b'n' ∷ [])
names_n = (refl, tt)

validate_tx_iff_example :
    Answers (IsFreshTx genesis [] both_write) (validate_tx toy_wire memory [] [] both_write)
validate_tx_iff_example =
    validate_tx_iff toy_wire memory [] genesis genesis-Holds both_write [] (names_n, tt)

-- The envelope is the transaction's results, and nothing else.
whole : Bytes → Result TxError Bytes
whole env = ok env

abbrev envelope : Bytes
envelope = marshal toy_wire both_write

abbrev manager : LockBasedTxMgr memory
manager = record { db = []; update_set = none }

both-IsReadable : IsReadable toy_wire memory whole (envelope ∷ envelope ∷ [])
unfolding whole read_tx unmarshal marshal read_number read_bytes split_bytes
both-IsReadable = ((both_write, refl, (names_n, tt)), ((both_write, refl, (names_n, tt)), tt))

-- The second transaction is invalid: the first one wrote the key that it read.
abbrev prepared : ValidatedBlock
prepared = record {
  previous_block_hash = 1 ∷ [];
  transactions = envelope ∷ [];
  invalid = rw_conflict_during_commit ∷ [];
}

abbrev batch : UpdateSet
batch =
    (construct_composite_key (b'n' ∷ []) (b'a' ∷ []), record { value = some (7 ∷ []); version = 1 })
    ∷ []

abbrev stored : Assoc Bytes Bytes
stored = (construct_composite_key (b'n' ∷ []) (b'a' ∷ []), 1 ∷ 0 ∷ 7 ∷ []) ∷ []

prepared_run :
    validate_and_prepare toy_wire memory whole manager (1 ∷ []) (envelope ∷ envelope ∷ [])
    ≡ (ok prepared, record { db = []; update_set = some batch })
unfolding validate_and_prepare prepare_all prepare_tx keep_valid whole read_tx unmarshal marshal
    read_number read_bytes split_bytes validate_tx validate_namespaces validate_reads
    get_committed_version get_committed_value_and_version memory_get add_write_set_to_batch
    add_namespaces add_writes add_write construct_composite_key
prepared_run = refl

commit_run :
    commit toy_wire memory (record { db = []; update_set = some batch })
    ≡ (ok tt, record { db = stored; update_set = none })
unfolding commit memory_write put_all encode_value construct_composite_key
commit_run = refl

validate_and_prepare-Schedule_example :
    (out : ValidatedBlock) × (final : UpdateSet) × (validate_and_prepare toy_wire memory whole
        manager
        (1 ∷ [])
        (envelope ∷ envelope ∷ [])
      ≡ (ok out, record { db = []; update_set = some final }))
    × Schedule toy_wire memory whole genesis final []
        (envelope ∷ envelope ∷ [])
        out.transactions
        (length out.invalid)
    × IsWfBatch final
    × (out.previous_block_hash ≡ 1 ∷ [])
validate_and_prepare-Schedule_example =
    validate_and_prepare-Schedule toy_wire memory whole manager genesis (1 ∷ [])
      (envelope ∷ envelope ∷ []) genesis-Holds both-IsReadable

abbrev committed : LockBasedTxMgr memory
committed = record { db = stored; update_set = none }

abbrev value_of : Result TxError VersionedValue → VersionedValue
value_of (ok vv) = vv
value_of (err e) = record { value = none; version = 0 }

abbrev after : World
after ns key = value_of (get_committed_value_and_version toy_wire memory stored ns key)

after-Holds : Holds toy_wire memory stored after
unfolding get_committed_value_and_version memory_get
after-Holds ns key h = refl

commit-Serial_example :
    Serial toy_wire memory whole after genesis (envelope ∷ []) × (committed.update_set ≡ none)
commit-Serial_example =
    commit-Serial toy_wire memory whole manager (record { db = []; update_set = some batch })
      committed genesis after (1 ∷ []) (envelope ∷ envelope ∷ []) prepared genesis-Holds
      both-IsReadable prepared_run commit_run after-Holds

-- A transaction that writes a key, reads it, reads another, and scans a range.
abbrev calls : List Call
calls =
    put (b'n' ∷ []) (b'a' ∷ []) (some (5 ∷ []))
    ∷ get (b'n' ∷ []) (b'a' ∷ [])
    ∷ get (b'n' ∷ []) (b'b' ∷ [])
    ∷ next (b'n' ∷ []) stored
    ∷ []

abbrev simulated : LockBasedTxSimulator
simulated = simulate toy_wire memory stored new_tx_simulator calls

get_state-seen_example :
    ((get_state toy_wire memory stored (b'n' ∷ []) (b'a' ∷ []) new_tx_simulator).0
      ≡ seen toy_wire memory stored new_tx_simulator (b'n' ∷ []) (b'a' ∷ []))
    × ((ns' key' : Bytes)
        → seen toy_wire memory stored
            (get_state toy_wire memory stored (b'n' ∷ []) (b'a' ∷ []) new_tx_simulator).1
            ns'
            key'
          ≡ seen toy_wire memory stored new_tx_simulator ns' key')
get_state-seen_example =
    get_state-seen toy_wire memory stored new_tx_simulator (b'n' ∷ []) (b'a' ∷ []) refl

seen-set_state_example :
    seen toy_wire memory stored
      (set_state (b'n' ∷ []) (b'a' ∷ []) none new_tx_simulator).1
      (b'n' ∷ [])
      (b'a' ∷ [])
    ≡ ok none
seen-set_state_example =
    seen-set_state toy_wire memory stored new_tx_simulator (b'n' ∷ []) (b'a' ∷ []) refl none
      (b'n' ∷ []) (b'a' ∷ [])

calls_names : All (IsOwn toy_wire after) calls
unfolding get_committed_value_and_version memory_get construct_composite_key
calls_names = (names_n, (names_n, (names_n, ((names_n, ((b'a' ∷ [], refl, refl), tt)), tt))))

abbrev as_listed : List Bytes → List Bytes
as_listed ks = ks

simulated-IsSized : IsSizedTx (get_tx_read_write_set as_listed simulated)
unfolding simulate set_state get_state put_holder written get_tx_read_write_set ns_rw_set entries_at
    get_sorted_keys get_committed_value_and_version memory_get decode_value construct_composite_key
    scan_next split_composite_key peek_number
simulated-IsSized = omega arith

simulate-valid_example :
    (unmarshal toy_wire (get_tx_simulation_results as_listed toy_wire simulated)
      ≡ ok (get_tx_read_write_set as_listed simulated))
    × (validate_tx toy_wire memory stored [] (get_tx_read_write_set as_listed simulated) ≡ ok true)
simulate-valid_example =
    simulate-valid toy_wire memory as_listed stored after calls after-Holds calls_names
      simulated-IsSized

-- Varints of one byte.
abbrev one_byte : ℕ → Bytes
one_byte n = n ∷ []

abbrev first_byte : Bytes → ℕ
first_byte [] = 0
first_byte (b ∷ bs) = b

decode-encode_example :
    (bytes : Bytes) × (encode_order_preserving one_byte first_byte 70000 ≡ some bytes)
    × (decode_order_preserving one_byte first_byte (bytes ++ (9 ∷ [])) ≡ some (70000, length bytes))
decode-encode_example =
    decode-encode one_byte first_byte (λ n h. refl) (λ n rest h. refl) 70000 (9 ∷ []) (omega arith)
