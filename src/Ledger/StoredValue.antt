-- ===== src/Ledger/StoredValue.antt =====
-- The values of the store, in lockbasedtxmgmt/lockbased_txmgr.go: a version, a delete marker and
-- the bytes.
use fabric.Base.{
  ℕ, ◌+◌, Bytes, [], ◌++◌, ◌≡◌, Option, none, some, if◌then◌else◌, ◌==◌, nat_eq, length, drop,
  drop-length, length-append, arith, append_assoc,
}
use fabric.Ledger.Wire.{ProtoBuffer, IsU64}

pub record VersionedValue : Type 0 where
  pub value : Option Bytes
  pub version : ℕ

drop-length_two : (xs ys zs : Bytes) → drop (length xs + length ys) (xs ++ (ys ++ zs)) ≡ zs
drop-length_two xs ys zs =
    rw (← append_assoc xs ys zs, ← length-append xs ys) (drop-length (xs ++ ys) zs)

stored_marker : Option Bytes → ℕ
stored_marker none = 1
stored_marker (some v) = 0

stored_bytes : Option Bytes → Bytes
stored_bytes none = []
stored_bytes (some v) = v

module _ (p : ProtoBuffer) where
  open p use {encode_varint, peek_varint, peek_lem}

  unfoldable pub encode_value : VersionedValue → Bytes
  unfolding stored_marker stored_bytes
  encode_value vv =
      encode_varint vv.version ++ (encode_varint (stored_marker vv.value) ++ stored_bytes vv.value)

  unfoldable pub decode_value : Bytes → VersionedValue
  decode_value b =
      let (version, len1) = peek_varint b in
      let (marker, len2) = peek_varint (drop len1 b) in
      if marker == 1
      then record { value = none; version = version }
      else record { value = some (drop (len1 + len2) b); version = version }

  decode-encode_parts :
      (v : Option Bytes) (n : ℕ)
      → IsU64 n
      → decode_value (encode_value (record { value = v; version = n }))
        ≡ record { value = v; version = n }
  unfolding decode_value encode_value
  decode-encode_parts none n h =
      rw (peek_lem n _ h, drop-length (encode_varint n), peek_lem 1 _ (omega arith))
  decode-encode_parts (some v) n h = rw (
    peek_lem n _ h,
    drop-length (encode_varint n),
    peek_lem 0 _ (omega arith),
    drop-length_two (encode_varint n) (encode_varint 0) v,
  )

  -- A value whose version is a `uint64`, also a deleted one, is decoded as it was encoded.
  pub decode-encode : (vv : VersionedValue) → IsU64 vv.version → decode_value (encode_value vv) ≡ vv
  unfolding decode_value encode_value
  decode-encode vv h = decode-encode_parts vv.value vv.version h
