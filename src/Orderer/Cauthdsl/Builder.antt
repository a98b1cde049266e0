-- ===== src/Orderer/Cauthdsl/Builder.antt =====
-- orderer/common/cauthdsl/cauthdsl_builder.go: policies made of others.
use fabric.Base.{
  ◌≡◌, refl, Bool, true, false, ◌&&◌, ◌||◌, some, Bytes, List, [], ◌∷◌, Result, ok, pos,
}
use fabric.Orderer.Cauthdsl.{
  SignaturePolicy, n_out_of, no_more, also, SignaturePolicyEnvelope, PolicyError, Authenticator,
  tally, run_all, at_least, compile, new_signature_policy_evaluator,
}

unfoldable pub both_of : SignaturePolicy → SignaturePolicy → SignaturePolicy
both_of lhs rhs = n_out_of (pos 2) (also lhs (also rhs no_more))

unfoldable pub one_of : SignaturePolicy → SignaturePolicy → SignaturePolicy
one_of lhs rhs = n_out_of (pos 1) (also lhs (also rhs no_more))

abbrev pub envelope : SignaturePolicy → List Bytes → SignaturePolicyEnvelope
envelope policy identities = record {
  version = pos 0;
  policy = some policy;
  identities = identities;
}

unfoldable pub accept_all_policy : SignaturePolicyEnvelope
accept_all_policy = envelope (n_out_of (pos 0) no_more) []

unfoldable pub reject_all_policy : SignaturePolicyEnvelope
reject_all_policy = envelope (n_out_of (pos 1) no_more) []

module _ (verify_signature : Bytes → Bytes → Bytes → Bool) where
  -- The policy compiles, and what it is compiled to answers `v`.
  abbrev pub Answers :
      Result PolicyError Authenticator → Bytes → List Bytes → List Bytes → Bool → Type 0
  Answers r msg ids signatures v =
      (a : Authenticator) × (r ≡ ok a) × (a msg ids signatures ≡ some v)

  pair-Answers :
      (a b : Authenticator) (msg : Bytes) (ids signatures : List Bytes) (v w : Bool)
      → a msg ids signatures ≡ some v
      → b msg ids signatures ≡ some w
      → run_all (a ∷ b ∷ []) msg ids signatures ≡ tally (some v) (tally (some w) (some 0))
  unfolding run_all
  pair-Answers a b msg ids signatures v w e f = rw (e, f) refl

  both_at_least :
      (a b : Authenticator) (msg : Bytes) (ids signatures : List Bytes) (v w : Bool)
      → run_all (a ∷ b ∷ []) msg ids signatures ≡ tally (some v) (tally (some w) (some 0))
      → at_least (pos 2) (a ∷ b ∷ []) msg ids signatures ≡ some (v && w)
  unfolding tally at_least
  both_at_least a b msg ids signatures true true e = rw (at_least, e) refl
  both_at_least a b msg ids signatures true false e = rw (at_least, e) refl
  both_at_least a b msg ids signatures false true e = rw (at_least, e) refl
  both_at_least a b msg ids signatures false false e = rw (at_least, e) refl

  one_at_least :
      (a b : Authenticator) (msg : Bytes) (ids signatures : List Bytes) (v w : Bool)
      → run_all (a ∷ b ∷ []) msg ids signatures ≡ tally (some v) (tally (some w) (some 0))
      → at_least (pos 1) (a ∷ b ∷ []) msg ids signatures ≡ some (v || w)
  unfolding tally at_least
  one_at_least a b msg ids signatures true true e = rw (at_least, e) refl
  one_at_least a b msg ids signatures true false e = rw (at_least, e) refl
  one_at_least a b msg ids signatures false true e = rw (at_least, e) refl
  one_at_least a b msg ids signatures false false e = rw (at_least, e) refl

  -- If two policies compile and answer `v` and `w`, the policy `And` makes of them compiles and
  -- answers `v && w`, and the policy of `Or` compiles and answers `v || w`.
  pub both_of-one_of-Answers :
      (lhs rhs : SignaturePolicy) (identities : List Bytes) (msg : Bytes)
      (ids signatures : List Bytes) (v w : Bool)
      → Answers (compile verify_signature lhs identities) msg ids signatures v
      → Answers (compile verify_signature rhs identities) msg ids signatures w
      → Answers (compile verify_signature (both_of lhs rhs) identities) msg ids signatures (v && w)
        × Answers (compile verify_signature (one_of lhs rhs) identities) msg ids signatures (v || w)
  unfolding both_of one_of compile
  both_of-one_of-Answers lhs rhs identities msg ids signatures v w (a, e, answer_a)
        (b, f, answer_b) =
      let counted = pair-Answers a b msg ids signatures v w answer_a answer_b in
      (
        rw (e, f)
            (at_least (pos 2) (a ∷ b ∷ []), refl, both_at_least a b msg ids signatures v w counted),
        rw (e, f)
            (at_least (pos 1) (a ∷ b ∷ []), refl, one_at_least a b msg ids signatures v w counted),
      )

  -- `AcceptAllPolicy` compiles and answers true to everything, `RejectAllPolicy` false.
  pub accept_all-reject_all-Answers :
      (msg : Bytes) (ids signatures : List Bytes)
      → Answers
          (new_signature_policy_evaluator verify_signature accept_all_policy)
          msg
          ids
          signatures
          true
        × Answers
            (new_signature_policy_evaluator verify_signature reject_all_policy)
            msg
            ids
            signatures
            false
  unfolding new_signature_policy_evaluator accept_all_policy reject_all_policy compile
  accept_all-reject_all-Answers msg ids signatures =
      unfold at_least run_all in
      ((at_least (pos 0) [], refl, refl), (at_least (pos 1) [], refl, refl))
