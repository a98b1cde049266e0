-- ===== src/Orderer/Policies.antt =====
-- orderer/common/policies/policy.go: the manager of the policies of a chain.
use fabric.Base.{
  ℕ, Bool, false, if◌then◌else◌, ◌==◌, nat_eq, list_eq, Option, none, some, Bytes, Result, ok, err,
}
use fabric.Orderer.Cauthdsl.{
  SignaturePolicyEnvelope, Authenticator, PolicyError, new_signature_policy_evaluator,
}
use fabric.Orderer.ConfigTx.Handlers.{ConfigurationItem, Handler}
use fabric.Orderer.ConfigTx.Proposals.{
  Read, reads, refuses, panics, Proposals, proposals_handler, get_value,
}

-- A policy of another type than a signature policy, or a signature policy, which may be nil.
pub data PolicySource : Type 0 where
  other_type : PolicySource
  signature_policy : Option SignaturePolicyEnvelope → PolicySource

-- A policy is what its source is compiled to.
pub record PolicyImpl : Type 0 where
  pub source : PolicySource
  pub evaluator : Authenticator

-- `ConfigurationItem_Policy`
abbrev policy_type : ℕ
policy_type = 0

pub data NewPolicyError : Type 0 where
  unknown_policy_type nil_signature_policy : NewPolicyError
  not_compiled : PolicyError → NewPolicyError

policy_or_panic : Result NewPolicyError PolicyImpl → Read PolicyImpl
policy_or_panic (ok p) = reads p
policy_or_panic (err (not_compiled PolicyError.index_panic)) = panics
policy_or_panic (err (not_compiled PolicyError.nil_panic)) = panics
policy_or_panic (err (not_compiled PolicyError.bad_version)) = refuses
policy_or_panic (err (not_compiled PolicyError.out_of_range)) = refuses
policy_or_panic (err (not_compiled PolicyError.unknown_type)) = refuses
policy_or_panic (err unknown_policy_type) = refuses
policy_or_panic (err nil_signature_policy) = refuses

module _ (verify_signature : Bytes → Bytes → Bytes → Bool) where
  unfoldable pub new_policy : PolicySource → Result NewPolicyError PolicyImpl
  new_policy other_type = err unknown_policy_type
  new_policy (signature_policy none) = err nil_signature_policy
  new_policy (signature_policy (some e)) =
      elim (new_signature_policy_evaluator verify_signature e) [
        | err x ↦ err (not_compiled x)
        | ok evaluator ↦ ok (record { source = signature_policy (some e); evaluator = evaluator })
      ]

  -- `Evaluate`, with a result of `none` for a panic; a nil policy rejects.
  unfoldable pub evaluate : Option PolicyImpl → Authenticator
  evaluate none payload identities signatures = some false
  evaluate (some p) payload identities signatures = p.evaluator payload identities signatures

  -- the generated reader of a policy
  module _ (read_policy : Bytes → Option PolicySource) where
    -- `ProposeConfig` up to the write to the map
    unfoldable pub policy_of_item : ConfigurationItem → Read PolicyImpl
    unfolding policy_or_panic
    policy_of_item item =
        if item.item_type == policy_type
        then elim (read_policy item.value) [
          | none ↦ refuses
          | some source ↦ policy_or_panic (new_policy source)
        ]
        else refuses

    abbrev pub manager_impl : Handler (Proposals PolicyImpl)
    manager_impl = proposals_handler policy_of_item

  abbrev pub get_policy : Bytes → Proposals PolicyImpl → Option PolicyImpl
  get_policy id pm = get_value id pm
