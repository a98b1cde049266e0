-- ===== src/Orderer/Sbft/Roots.antt =====
-- orderer/sbft/simplebft/crypto.go: what a Merkle root says about the payloads.
use fabric.Base.{
  ℕ, zero, suc, ◌≤◌, ◌<◌, ◌≡◌, ◌≢◌, refl, sym, ◌∙◌, Bool-cases, inl, inr, ◌⊎◌, ◌==◌, ==_iff, nat_eq,
  list_eq, List, [], ◌∷◌, ◌++◌, Bytes, map, length, length-map, All, arith,
}
use fabric.Orderer.Sbft.Merkle

-- two texts with one hash
pub record Collision (hash : Bytes → Bytes) : Type 0 where
  pub one : Bytes
  pub other : Bytes
  pub differ : one ≢ other
  pub collide : hash one ≡ hash other

append-injective : (a b c d : Bytes) → length a ≡ length c → (a ++ b) ≡ (c ++ d) → (a ≡ c) × (b ≡ d)
append-injective [] b [] d l e = (refl, e)
append-injective [] b (y ∷ c) d l e = ground arith
append-injective (x ∷ a) b [] d l e = ground arith
append-injective (x ∷ a) b (y ∷ c) d l e =
    let (p, q) = append-injective a b c d (omega (arith, l)) (cc e) in (cc (p, e), q)

module _ (hash : Bytes → Bytes) where
  hash-injective : (a b : Bytes) → hash a ≡ hash b → (a ≡ b) ⊎ Collision hash
  hash-injective a b e = elim (Bool-cases (a == b)) [
    | inl t ↦ inl ((==_iff a b).0 t)
    | inr t ↦
        inr record { one = a; other = b; differ = λ p. cc (sym t ∙ (==_iff a b).1 p); collide = e }
  ]

  map-injective : (xs ys : List Bytes) → map hash xs ≡ map hash ys → (xs ≡ ys) ⊎ Collision hash
  map-injective [] [] e = inl refl
  map-injective [] (y ∷ ys) e = cc e
  map-injective (x ∷ xs) [] e = cc e
  map-injective (x ∷ xs) (y ∷ ys) e = elim (hash-injective x y (cc e)) [
    | inl p ↦ elim (map-injective xs ys (cc e)) [ inl q ↦ inl (cc (p, q)) | inr k ↦ inr k ]
    | inr k ↦ inr k
  ]

  abbrev HasLength : ℕ → List Bytes → Type 0
  HasLength n = All (λ d. length d ≡ n)

  next_digests-injective :
      (n : ℕ) (xs ys : List Bytes)
      → length xs ≡ length ys
      → HasLength n xs
      → HasLength n ys
      → Merkle.next_digests hash xs ≡ Merkle.next_digests hash ys
      → (xs ≡ ys) ⊎ Collision hash
  unfolding Merkle.next_digests
  next_digests-injective n [] [] l h k e = inl refl
  next_digests-injective n [] (y ∷ ys) l h k e = ground arith
  next_digests-injective n (x ∷ xs) [] l h k e = ground arith
  next_digests-injective n (x ∷ []) (y ∷ []) l h k e = inl e
  next_digests-injective n (x ∷ []) (y ∷ z ∷ ys) l h k e = ground arith
  next_digests-injective n (x ∷ w ∷ xs) (y ∷ []) l h k e = ground arith
  next_digests-injective n (x ∷ w ∷ xs) (y ∷ z ∷ ys) l (hx, (hw, h)) (ky, (kz, k)) e =
      elim (hash-injective (x ++ w) (y ++ z) (cc e)) [
        | inl p ↦ elim (next_digests-injective n xs ys (omega (arith, l)) h k (cc e)) [
          | inl q ↦ let (r, t) = append-injective x w y z (hx ∙ sym ky) p in inl (cc (q, r, t))
          | inr c ↦ inr c
        ]
        | inr c ↦ inr c
      ]

  next_digests-length :
      (xs ys : List Bytes)
      → length xs ≡ length ys
      → length (Merkle.next_digests hash xs) ≡ length (Merkle.next_digests hash ys)
  unfolding Merkle.next_digests
  next_digests-length [] [] l = refl
  next_digests-length [] (y ∷ ys) l = ground arith
  next_digests-length (x ∷ xs) [] l = ground arith
  next_digests-length (x ∷ []) (y ∷ []) l = refl
  next_digests-length (x ∷ []) (y ∷ z ∷ ys) l = ground arith
  next_digests-length (x ∷ w ∷ xs) (y ∷ []) l = ground arith
  next_digests-length (x ∷ w ∷ xs) (y ∷ z ∷ ys) l =
      omega (arith, next_digests-length xs ys (omega (arith, l)))

  next_digests-le : (xs : List Bytes) → length (Merkle.next_digests hash xs) ≤ length xs
  unfolding Merkle.next_digests
  next_digests-le [] = omega arith
  next_digests-le (x ∷ []) = omega arith
  next_digests-le (x ∷ w ∷ xs) = omega (arith, next_digests-le xs)

  next_digests-less :
      (x w : Bytes) (xs : List Bytes)
      → length (Merkle.next_digests hash (x ∷ w ∷ xs)) < length (x ∷ w ∷ xs)
  unfolding Merkle.next_digests
  next_digests-less x w xs = omega (arith, next_digests-le xs)

  module _ (n : ℕ) (fixed : (b : Bytes) → length (hash b) ≡ n) where
    next_digests-HasLength :
        (xs : List Bytes) → HasLength n xs → HasLength n (Merkle.next_digests hash xs)
    unfolding Merkle.next_digests
    next_digests-HasLength [] h = tt
    next_digests-HasLength (x ∷ []) h = h
    next_digests-HasLength (x ∷ w ∷ xs) (hx, (hw, h)) =
        (fixed (x ++ w), next_digests-HasLength xs h)

    merkle_rounds-injective :
        (fuel : ℕ) (xs ys : List Bytes)
        → length xs ≡ length ys
        → length xs ≤ fuel
        → HasLength n xs
        → HasLength n ys
        → Merkle.merkle_rounds hash fuel xs ≡ Merkle.merkle_rounds hash fuel ys
        → (xs ≡ ys) ⊎ Collision hash
    unfolding Merkle.merkle_rounds
    merkle_rounds-injective fuel [] [] l f h k e = inl refl
    merkle_rounds-injective fuel [] (y ∷ ys) l f h k e = ground arith
    merkle_rounds-injective fuel (x ∷ xs) [] l f h k e = ground arith
    merkle_rounds-injective fuel (x ∷ []) (y ∷ []) l f h k e = inl (cc e)
    merkle_rounds-injective fuel (x ∷ []) (y ∷ z ∷ ys) l f h k e = ground arith
    merkle_rounds-injective fuel (x ∷ w ∷ xs) (y ∷ []) l f h k e = ground arith
    merkle_rounds-injective zero (x ∷ w ∷ xs) (y ∷ z ∷ ys) l f h k e = ground arith
    merkle_rounds-injective (suc fuel) (x ∷ w ∷ xs) (y ∷ z ∷ ys) l f h k e =
        elim (merkle_rounds-injective fuel _ _ (next_digests-length (x ∷ w ∷ xs) (y ∷ z ∷ ys) l)
          (omega (arith, f, next_digests-less x w xs)) (next_digests-HasLength (x ∷ w ∷ xs) h)
          (next_digests-HasLength (y ∷ z ∷ ys) k) e) [
            | inl p ↦ next_digests-injective n (x ∷ w ∷ xs) (y ∷ z ∷ ys) l h k p
            | inr c ↦ inr c
          ]

    map-HasLength : (xs : List Bytes) → HasLength n (map hash xs)
    map-HasLength [] = tt
    map-HasLength (x ∷ xs) = (fixed x, map-HasLength xs)

    -- Take a hash with results of one length. Two lists of equally many payloads that have the same
    -- root are the same list, or they show two texts with one hash.
    pub merkle_hash_data-binds :
        (xs ys : List Bytes)
        → length xs ≡ length ys
        → Merkle.merkle_hash_data hash xs ≡ Merkle.merkle_hash_data hash ys
        → (xs ≡ ys) ⊎ Collision hash
    unfolding Merkle.merkle_hash_data Merkle.merkle_hash_digests
    merkle_hash_data-binds xs ys l e =
        elim (merkle_rounds-injective (length (map hash xs)) (map hash xs) (map hash ys) same
          (omega arith) (map-HasLength xs) (map-HasLength ys) (rw (sym same) at e)) [
            | inl p ↦ map-injective xs ys p
            | inr c ↦ inr c
          ]
      where
        same : length (map hash xs) ≡ length (map hash ys)
        same = length-map hash xs ∙ (l ∙ sym (length-map hash ys))
