-- ===== src/Ledger/Wire.antt =====
-- github.com/golang/protobuf, as core/ledger uses it: `proto.Buffer`'s readers and writers, and
-- the function `proto.DecodeVarint`. The package is not the repository's: it is a parameter.
use fabric.Base.{ℕ, ◌<◌, ◌^◌, ◌≡◌, Bytes, ◌++◌, length, Result, ok}

-- The error of a reader: the buffer ends, or holds no value of the kind that is read.
pub data WireError : Type 0 where
  malformed : WireError

-- A number that is a Go `uint64`, and a length that a Go `int` can hold.
abbrev pub IsU64 : ℕ → Type 0
IsU64 n = n < 2 ^ 64

abbrev pub IsLen : ℕ → Type 0
IsLen n = n < 2 ^ 63

-- A reader takes a value from the front of the buffer and returns what is left of it.
abbrev pub Reader : Type 0 → Type 0
Reader A = Bytes → Result WireError (A × Bytes)

pub record ProtoBuffer : Type 0 where
  pub encode_varint : ℕ → Bytes
  pub encode_string : Bytes → Bytes
  pub encode_raw : Bytes → Bytes
  pub decode_varint : Reader ℕ
  pub decode_string : Reader Bytes
  pub decode_raw : Reader Bytes
  -- `proto.DecodeVarint`: the number and how many bytes it takes
  pub peek_varint : Bytes → ℕ × ℕ
  pub varint_lem :
      (n : ℕ) (rest : Bytes) → IsU64 n → decode_varint (encode_varint n ++ rest) ≡ ok (n, rest)
  pub string_lem :
      (s rest : Bytes) → IsLen (length s) → decode_string (encode_string s ++ rest) ≡ ok (s, rest)
  pub raw_lem :
      (s rest : Bytes) → IsLen (length s) → decode_raw (encode_raw s ++ rest) ≡ ok (s, rest)
  pub peek_lem :
      (n : ℕ) (rest : Bytes)
      → IsU64 n
      → peek_varint (encode_varint n ++ rest) ≡ (n, length (encode_varint n))
