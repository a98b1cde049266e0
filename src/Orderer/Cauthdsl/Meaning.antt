-- ===== src/Orderer/Cauthdsl/Meaning.antt =====
-- What a signature policy asks for, read off the policy itself.
use fabric.Base.{
  ℕ, ◌+◌, ◌<◌, ◌^◌, Bool, false, if◌then◌else◌, nat_eq, list_eq, none, some, Bytes, List, [], ◌∷◌,
  length, get_elem?, ℤ, pos, negsuc, int_leb,
}
use fabric.Base.Assoc.{Assoc, lookup}
use fabric.Orderer.Cauthdsl.{
  SignaturePolicy, signed_by, n_out_of, unknown, SignaturePolicies, no_more, also,
}

-- Identities with their signatures.
abbrev pub paired : List Bytes → List Bytes → Assoc Bytes Bytes
paired [] signatures = []
paired (id ∷ ids) [] = []
paired (id ∷ ids) (s ∷ signatures) = (id, s) ∷ paired ids signatures

abbrev pub IsIndex : ℤ → List Bytes → Type 0
IsIndex (pos i) identities = i < length identities
IsIndex (negsuc i) identities = ⊥

abbrev pub count : SignaturePolicies → ℕ
count no_more = 0
count (also p ps) = count ps + 1

-- Every index names an identity, and every policy has a type.
abbrev mutual
  pub IsWf : List Bytes → SignaturePolicy → Type 0
  IsWf identities (signed_by i) = IsIndex i identities
  IsWf identities (n_out_of n ps) = AreWf identities ps
  IsWf identities unknown = ⊥

  pub AreWf : List Bytes → SignaturePolicies → Type 0
  AreWf identities no_more = Unit
  AreWf identities (also p ps) = IsWf identities p × AreWf identities ps

-- No policy has so many parts that an `int32` cannot count them.
abbrev mutual
  pub IsNarrow : SignaturePolicy → Type 0
  IsNarrow (signed_by i) = Unit
  IsNarrow (n_out_of n ps) = (count ps < 2 ^ 31) × AreNarrow ps
  IsNarrow unknown = Unit

  pub AreNarrow : SignaturePolicies → Type 0
  AreNarrow no_more = Unit
  AreNarrow (also p ps) = IsNarrow p × AreNarrow ps

module _ (verify_signature : Bytes → Bytes → Bytes → Bool) (identities : List Bytes) (msg : Bytes)
    (signed : Assoc Bytes Bytes) where
  -- The first signature that goes with the identity is good.
  abbrev pub has_signed : Bytes → Bool
  has_signed id = elim (lookup id signed) [
    | none ↦ false
    | some signature ↦ verify_signature msg id signature
  ]

  abbrev pub has_signed_at : ℤ → Bool
  has_signed_at (pos i) = elim (get_elem? identities i) [ none ↦ false | some id ↦ has_signed id ]
  has_signed_at (negsuc i) = false

  abbrev mutual
    pub satisfied : SignaturePolicy → Bool
    satisfied (signed_by i) = has_signed_at i
    satisfied (n_out_of n ps) = int_leb n (pos (number_satisfied ps))
    satisfied unknown = false

    pub number_satisfied : SignaturePolicies → ℕ
    number_satisfied no_more = 0
    number_satisfied (also p ps) =
        if satisfied p then number_satisfied ps + 1 else number_satisfied ps
