-- ===== src/Orderer/Sbft/Merkle.antt =====
-- orderer/sbft/simplebft/crypto.go: the Merkle root of the payloads.
use fabric.Base.{ℕ, zero, suc, Option, none, some, List, [], ◌∷◌, ◌++◌, Bytes, map, length}

module _ (hash : Bytes → Bytes) where
  -- one round of the outer loop: the digests by pairs, an odd one at the end as it is
  unfoldable pub next_digests : List Bytes → List Bytes
  next_digests [] = []
  next_digests (d ∷ []) = d ∷ []
  next_digests (d ∷ e ∷ ds) = hash (d ++ e) ∷ next_digests ds

  -- The fuel is the number of digests, which a round makes smaller.
  unfoldable pub merkle_rounds : ℕ → List Bytes → Option Bytes
  merkle_rounds fuel [] = none
  merkle_rounds fuel (d ∷ []) = some d
  merkle_rounds zero (d ∷ e ∷ ds) = none
  merkle_rounds (suc fuel) (d ∷ e ∷ ds) = merkle_rounds fuel (next_digests (d ∷ e ∷ ds))

  unfoldable pub merkle_hash_digests : List Bytes → Option Bytes
  merkle_hash_digests digests = merkle_rounds (length digests) digests

  unfoldable pub merkle_hash_data : List Bytes → Option Bytes
  merkle_hash_data payloads = merkle_hash_digests (map hash payloads)
