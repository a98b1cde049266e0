-- ===== src/Orderer/Cauthdsl.antt =====
-- orderer/common/cauthdsl: signature policies are compiled to functions that check signatures.
pub mod Meaning
pub mod Compile
pub mod Builder
mod Samples
use fabric.Base.{
  ℕ, zero, suc, ◌+◌, Bool, true, false, if◌then◌else◌, ◌==◌, nat_eq, list_eq, ◌&&◌, not, Option,
  none, some, Bytes, List, [], ◌∷◌, length, get_elem?, Result, ok, err, ◌>>=◌, ℤ, pos, negsuc,
  int_leb, int32,
}

-- `unknown` is a policy whose type is not set.
mutual
  pub data SignaturePolicy : Type 0 where
    signed_by : ℤ → SignaturePolicy
    n_out_of : ℤ → SignaturePolicies → SignaturePolicy
    unknown : SignaturePolicy

  pub data SignaturePolicies : Type 0 where
    no_more : SignaturePolicies
    also : SignaturePolicy → SignaturePolicies → SignaturePolicies

-- The policy may be nil; the parts of a policy are not, as the generated reader makes them.
pub record SignaturePolicyEnvelope : Type 0 where
  pub version : ℤ
  pub policy : Option SignaturePolicy
  pub identities : List Bytes

-- `index_panic` is the panic of an index out of range, `nil_panic` that of a nil policy.
pub data PolicyError : Type 0 where
  bad_version out_of_range unknown_type index_panic nil_panic : PolicyError

-- The message, the identities and the signatures are given; `none` is a panic.
abbrev pub Authenticator : Type 0
Authenticator = Bytes → List Bytes → List Bytes → Option Bool

tally : Option Bool → Option ℕ → Option ℕ
tally (some true) (some n) = some (n + 1)
tally (some false) (some n) = some n
tally (some v) none = none
tally none n = none

-- the loop that counts the policies that verify
unfoldable pub run_all : List Authenticator → Bytes → List Bytes → List Bytes → Option ℕ
unfolding tally
run_all [] msg ids signatures = some 0
run_all (policy ∷ policies) msg ids signatures =
    tally (policy msg ids signatures) (run_all policies msg ids signatures)

-- `verified` is an `int32`.
unfoldable pub at_least : ℤ → List Authenticator → Authenticator
at_least n policies msg ids signatures = elim (run_all policies msg ids signatures) [
  | none ↦ none
  | some verified ↦ some (int_leb n (int32 verified))
]

abbrev pub index_in_range : ℤ → List Bytes → Bool
index_in_range i identities = int_leb (pos 0) i && not (int_leb (int32 (length identities)) i)

module _ (verify_signature : Bytes → Bytes → Bytes → Bool) where
  -- the loop over the identities, from the `i`-th on
  unfoldable pub verify_from : Bytes → Bytes → List Bytes → ℕ → List Bytes → Option Bool
  verify_from signed_by_id msg [] i signatures = some false
  verify_from signed_by_id msg (id ∷ ids) i signatures =
      let rest = verify_from signed_by_id msg ids (suc i) signatures in
      if id == signed_by_id
      then elim (get_elem? signatures i) [
        | none ↦ none
        | some signature ↦ some (verify_signature msg id signature)
      ]
      else rest

  unfoldable pub verify_signed_by : Bytes → Authenticator
  verify_signed_by id msg ids signatures = verify_from id msg ids 0 signatures

  identity_at : ℤ → List Bytes → Result PolicyError Authenticator
  identity_at (pos i) identities = elim (get_elem? identities i) [
    | none ↦ err index_panic
    | some id ↦ ok (verify_signed_by id)
  ]
  identity_at (negsuc i) identities = err index_panic

  unfoldable mutual
    unfolding identity_at

    pub compile : SignaturePolicy → List Bytes → Result PolicyError Authenticator
    compile (signed_by i) identities =
        if index_in_range i identities then identity_at i identities else err out_of_range
    compile (n_out_of n policies) identities =
        compile_all policies identities >>= λ compiled. ok (at_least n compiled)
    compile unknown identities = err unknown_type

    pub compile_all : SignaturePolicies → List Bytes → Result PolicyError (List Authenticator)
    compile_all no_more identities = ok []
    compile_all (also p ps) identities =
        compile p identities >>= λ a. compile_all ps identities >>= λ rest. ok (a ∷ rest)

  compile_policy : Option SignaturePolicy → List Bytes → Result PolicyError Authenticator
  compile_policy none identities = err nil_panic
  compile_policy (some policy) identities = compile policy identities

  unfoldable pub new_signature_policy_evaluator :
      SignaturePolicyEnvelope → Result PolicyError Authenticator
  unfolding compile_policy
  new_signature_policy_evaluator e = elim e.version [
    | pos zero ↦ compile_policy e.policy e.identities
    | pos (suc n) ↦ err bad_version
    | negsuc n ↦ err bad_version
  ]
