-- ===== src/Ledger/OrderedNumbers.antt =====
-- core/ledger/util/util.go: numbers as bytes whose order is that of the numbers.
use fabric.Base.{
  ℕ, zero, suc, ◌+◌, ◌*◌, ◌/◌, ◌%◌, ◌^◌, ◌<◌, ◌≤◌, ◌≡◌, refl, ap, ◌∙◌, [], ◌∷◌, ◌++◌, Bytes, length,
  length-append, drop, arith, ltb, if◌then◌else◌, ◌||◌, nat_eq, Option, none, some, false,
}

-- `binary.BigEndian.PutUint64`, with the number of bytes as an argument
unfoldable pub big_endian : ℕ → ℕ → Bytes
big_endian zero n = []
big_endian (suc k) n = big_endian k (n / 256) ++ (n % 256 ∷ [])

-- `binary.BigEndian.Uint64`, on bytes behind those that made `acc`
unfoldable pub from_big_endian : ℕ → Bytes → ℕ
from_big_endian acc [] = acc
from_big_endian acc (b ∷ bs) = from_big_endian (acc * 256 + b) bs

-- the bytes from the first one on that is not zero
unfoldable pub trim : Bytes → Bytes
trim [] = []
trim (zero ∷ bs) = trim bs
trim (suc b ∷ bs) = suc b ∷ bs

unfoldable pub take_bytes : ℕ → Bytes → Bytes
take_bytes zero bs = []
take_bytes (suc n) [] = []
take_bytes (suc n) (b ∷ bs) = b ∷ take_bytes n bs

-- The calls of `proto.EncodeVarint` and `proto.DecodeVarint`, on a number below 128 its one byte.
module _ (encode_varint : ℕ → Bytes) (decode_varint : Bytes → ℕ) where
  -- A size of more than one byte panics.
  unfoldable pub encode_order_preserving : ℕ → Option Bytes
  unfolding big_endian trim
  encode_order_preserving n =
      let bytes = trim (big_endian 8 n) in
      let size_bytes = encode_varint (length bytes) in
      if ltb 1 (length size_bytes) then none else some (take_bytes 1 size_bytes ++ bytes)

  -- The number, and how many bytes it takes. A size above 8 panics, and so does a slice that is
  -- shorter than its first byte says (a slice without room behind its end).
  unfoldable pub decode_order_preserving : Bytes → Option (ℕ × ℕ)
  unfolding from_big_endian take_bytes
  decode_order_preserving bytes =
      let size = decode_varint bytes in
      if ltb 8 size || ltb (length bytes) (size + 1)
      then none
      else some (from_big_endian 0 (take_bytes size (drop 1 bytes)), size + 1)

  from_big_endian-append :
      (acc : ℕ) (xs : Bytes) (b : ℕ)
      → from_big_endian acc (xs ++ (b ∷ [])) ≡ from_big_endian acc xs * 256 + b
  unfolding from_big_endian
  from_big_endian-append acc [] b = refl
  from_big_endian-append acc (x ∷ xs) b = from_big_endian-append (acc * 256 + x) xs b

  bound : ℕ → ℕ
  bound zero = 1
  bound (suc k) = 256 * bound k

  from_big_endian-big_endian : (k n : ℕ) → n < bound k → from_big_endian 0 (big_endian k n) ≡ n
  unfolding bound big_endian from_big_endian
  from_big_endian-big_endian zero n h = omega (arith, h)
  from_big_endian-big_endian (suc k) n h = omega (
    arith,
    from_big_endian-append 0 (big_endian k (n / 256)) (n % 256),
    from_big_endian-big_endian k (n / 256) (omega (arith, h)),
  )

  from_big_endian-trim : (bs : Bytes) → from_big_endian 0 (trim bs) ≡ from_big_endian 0 bs
  unfolding from_big_endian trim
  from_big_endian-trim [] = refl
  from_big_endian-trim (zero ∷ bs) = from_big_endian-trim bs
  from_big_endian-trim (suc b ∷ bs) = refl

  length-trim-le : (bs : Bytes) → length (trim bs) ≤ length bs
  unfolding trim
  length-trim-le [] = omega arith
  length-trim-le (zero ∷ bs) = omega (arith, length-trim-le bs)
  length-trim-le (suc b ∷ bs) = omega arith

  take_bytes-length : (xs ys : Bytes) → take_bytes (length xs) (xs ++ ys) ≡ xs
  unfolding take_bytes
  take_bytes-length [] ys = refl
  take_bytes-length (x ∷ xs) ys = ap (λ t. x ∷ t) (take_bytes-length xs ys)

  module _ (one_byte : (n : ℕ) → n < 128 → encode_varint n ≡ n ∷ [])
      (own_byte : (n : ℕ) (rest : Bytes) → n < 128 → decode_varint (n ∷ rest) ≡ n) where
    value : (n : ℕ) → n < 2 ^ 64 → from_big_endian 0 (trim (big_endian 8 n)) ≡ n
    unfolding bound
    value n h = from_big_endian-trim (big_endian 8 n) ∙ from_big_endian-big_endian 8 n h

    length-big_endian : (k n : ℕ) → length (big_endian k n) ≡ k
    unfolding big_endian
    length-big_endian zero n = refl
    length-big_endian (suc k) n = omega (
      arith,
      length-append (big_endian k (n / 256)) (n % 256 ∷ []),
      length-big_endian k (n / 256),
    )

    size-le : (n : ℕ) → length (trim (big_endian 8 n)) ≤ 8
    size-le n = omega (arith, length-trim-le (big_endian 8 n), length-big_endian 8 n)

    enough :
        (xs rest : Bytes)
        → length xs ≤ 8
        → (ltb 8 (length xs) || ltb (suc (length (xs ++ rest))) (length xs + 1)) ≡ false
    enough xs rest h = ground (arith, length-append xs rest)

    decode-sized :
        (xs rest : Bytes)
        → length xs ≤ 8
        → decode_order_preserving (length xs ∷ (xs ++ rest))
          ≡ some (from_big_endian 0 xs, length xs + 1)
    unfolding decode_order_preserving
    decode-sized xs rest h =
        rw
          (
            own_byte (length xs) (xs ++ rest) (omega (arith, h)),
            enough xs rest h,
            take_bytes-length xs rest,
          )
          refl

    -- Take readers and writers of variable-length numbers that use, for a number below 128, its one
    -- byte. Every number below 2^64 is encoded, and from its bytes, whatever follows them, the decoder
    -- reads it back without a panic and says how many they are.
    pub decode-encode :
        (n : ℕ) (rest : Bytes)
        → n < 2 ^ 64
        → (bytes : Bytes) × (encode_order_preserving n ≡ some bytes)
          × (decode_order_preserving (bytes ++ rest) ≡ some (n, length bytes))
    unfolding encode_order_preserving take_bytes
    decode-encode n rest h = (
      length xs ∷ xs,
      rw (one_byte (length xs) (omega (arith, size-le n))) refl,
      decode-sized xs rest (size-le n) ∙ ap some paired,
    )
      where
        xs : Bytes
        xs = trim (big_endian 8 n)

        paired : ◌≡◌ {A = ℕ × ℕ} (from_big_endian 0 xs, length xs + 1) (n, suc (length xs))
        paired = rw (value n h) (ap (λ (t : ℕ). (n, t)) (omega arith))
