-- ===== src/Orderer/Cauthdsl/Samples.antt =====
-- A policy of two signers, with the theorems of the policies applied to it.
use fabric.Base.{
  ◌++◌, ◌≡◌, ◌↔◌, refl, Bool, true, false, some, Bytes, List, [], ◌∷◌, ok, ◌==◌, nat_eq, list_eq,
  pos, arith,
}
use fabric.Orderer.Cauthdsl.{SignaturePolicy, signed_by, compile, verify_signed_by, verify_from}
use fabric.Orderer.Cauthdsl.Meaning.{IsWf, paired, satisfied}
use fabric.Orderer.Cauthdsl.Compile.{Succeeds, compile_iff, authenticate-satisfied}
use fabric.Orderer.Cauthdsl.Builder.{both_of, one_of, Answers, both_of-one_of-Answers}

-- A signature is good if it is the identity followed by the message.
abbrev check : Bytes → Bytes → Bytes → Bool
check msg id signature = (id ++ msg) == signature

abbrev alice : Bytes
alice = 1 ∷ []

abbrev bob : Bytes
bob = 2 ∷ []

abbrev members : List Bytes
members = alice ∷ bob ∷ []

abbrev text : Bytes
text = 7 ∷ []

abbrev signatures : List Bytes
signatures = (1 ∷ 7 ∷ []) ∷ (2 ∷ 8 ∷ []) ∷ []

abbrev by_alice : SignaturePolicy
by_alice = signed_by (pos 0)

abbrev by_bob : SignaturePolicy
by_bob = signed_by (pos 1)

compiled_alice : compile check by_alice members ≡ ok (verify_signed_by check alice)
unfolding compile
compiled_alice = refl

compiled_bob : compile check by_bob members ≡ ok (verify_signed_by check bob)
unfolding compile
compiled_bob = refl

alice_signed : verify_signed_by check alice text members signatures ≡ some true
unfolding verify_signed_by verify_from
alice_signed = refl

bob_did_not : verify_signed_by check bob text members signatures ≡ some false
unfolding verify_signed_by verify_from
bob_did_not = refl

compile_iff_example : Succeeds (compile check by_bob members) ↔ IsWf members by_bob
compile_iff_example = compile_iff check members (omega arith) by_bob

authenticate-satisfied_example :
    verify_signed_by check alice text members signatures
    ≡ some (satisfied check members text (paired members signatures) by_alice)
authenticate-satisfied_example =
    authenticate-satisfied check members text members signatures (omega arith) by_alice
      (verify_signed_by check alice) compiled_alice tt

both_of-one_of-Answers_example :
    Answers check (compile check (both_of by_alice by_bob) members) text members signatures false
    × Answers check (compile check (one_of by_alice by_bob) members) text members signatures true
both_of-one_of-Answers_example =
    both_of-one_of-Answers check by_alice by_bob members text members signatures true false
      (verify_signed_by check alice, compiled_alice, alice_signed)
      (verify_signed_by check bob, compiled_bob, bob_did_not)
