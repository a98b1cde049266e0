-- ===== src/Orderer/Cauthdsl/Compile.antt =====
-- The compiled function answers what the policy asks for.
use fabric.Base.{
  ℕ, zero, suc, ◌+◌, ◌≤◌, ◌<◌, ◌^◌, ◌≡◌, ◌↔◌, refl, ap, Bool, true, false, if◌then◌else◌,
  Bool-cases, Option-cases, inl, inr, ◌==◌, ==_iff, nat_eq, list_eq, some, Bytes, List, [], ◌∷◌,
  length, get_elem?, drop, Result, ok, bind_ok, ℤ, pos, negsuc, int_leb, int32-small, arith,
}
use fabric.Base.Assoc.{Assoc, lookup}
use fabric.Orderer.Cauthdsl.{
  SignaturePolicy, signed_by, n_out_of, unknown, SignaturePolicies, no_more, also, Authenticator,
  tally, run_all, at_least, index_in_range, verify_from, verify_signed_by, identity_at, compile,
  compile_all,
}
use fabric.Orderer.Cauthdsl.Meaning.{
  paired, IsIndex, count, IsWf, AreWf, IsNarrow, AreNarrow, has_signed, has_signed_at, satisfied,
  number_satisfied,
}

abbrev pub Succeeds {ℓ} : {E : Type 0} {A : Type ℓ} → Result E A → Type ℓ
Succeeds {A} r = (a : A) × (r ≡ ok a)

get_elem-Succeeds {ℓ} :
    {A : Type ℓ} (xs : List A) (i : ℕ) → i < length xs → (a : A) × (get_elem? xs i ≡ some a)
get_elem-Succeeds [] i h = absurd (omega (arith, h))
get_elem-Succeeds (x ∷ xs) zero h = (x, refl)
get_elem-Succeeds (x ∷ xs) (suc i) h = get_elem-Succeeds xs i (omega (arith, h))

get_elem-drop {ℓ} :
    {A : Type ℓ} (xs : List A) (i : ℕ)
    → i < length xs
    → (a : A) × (get_elem? xs i ≡ some a) × (drop i xs ≡ a ∷ drop (suc i) xs)
get_elem-drop [] i h = absurd (omega (arith, h))
get_elem-drop (x ∷ xs) zero h = (x, refl, refl)
get_elem-drop (x ∷ xs) (suc i) h = get_elem-drop xs i (omega (arith, h))

index_in_range_iff :
    (i : ℤ) (identities : List Bytes)
    → length identities < 2 ^ 31
    → (index_in_range i identities ≡ true) ↔ IsIndex i identities
index_in_range_iff (pos i) identities few = ground arith
index_in_range_iff (negsuc i) identities few = ground arith

module _ (verify_signature : Bytes → Bytes → Bytes → Bool) where
  module _ (identities : List Bytes) (few : length identities < 2 ^ 31) where
    identity_at-Succeeds :
        (i : ℤ) → IsIndex i identities → Succeeds (identity_at verify_signature i identities)
    unfolding identity_at
    identity_at-Succeeds (pos i) h =
        let (id, e) = get_elem-Succeeds identities i h in
        rw (identity_at, e) (verify_signed_by verify_signature id, refl)
    identity_at-Succeeds (negsuc i) h = absurd h

    mutual
      unfolding compile

      compile-IsWf :
          (p : SignaturePolicy) (a : Authenticator)
          → compile verify_signature p identities ≡ ok a
          → IsWf identities p
      compile-IsWf (signed_by i) a e = ground (arith, index_in_range_iff i identities few, e)
      compile-IsWf (n_out_of n ps) a e =
          let (cs, f, g) = bind_ok (compile_all verify_signature ps identities) _ a e in
          compile_all-AreWf ps cs f
      compile-IsWf unknown a e = ground (arith, e)

      compile_all-AreWf :
          (ps : SignaturePolicies) (cs : List Authenticator)
          → compile_all verify_signature ps identities ≡ ok cs
          → AreWf identities ps
      compile_all-AreWf no_more cs e = tt
      compile_all-AreWf (also p ps) cs e =
          let (c, f, g) = bind_ok (compile verify_signature p identities) _ cs e in
          let (rest, k, l) = bind_ok (compile_all verify_signature ps identities) _ cs g in
          (compile-IsWf p c f, compile_all-AreWf ps rest k)

    mutual
      unfolding compile

      compile_of_wf :
          (p : SignaturePolicy)
          → IsWf identities p
          → Succeeds (compile verify_signature p identities)
      compile_of_wf (signed_by i) h =
          rw ((index_in_range_iff i identities few).1 h) (identity_at-Succeeds i h)
      compile_of_wf (n_out_of n ps) h =
          let (cs, e) = compile_all_of_wf ps h in rw e (at_least n cs, refl)
      compile_of_wf unknown h = absurd h

      compile_all_of_wf :
          (ps : SignaturePolicies)
          → AreWf identities ps
          → Succeeds (compile_all verify_signature ps identities)
      compile_all_of_wf no_more h = ([], refl)
      compile_all_of_wf (also p ps) h =
          let (a, e) = compile_of_wf p h.0 in
          let (cs, f) = compile_all_of_wf ps h.1 in rw (e, f) (a ∷ cs, refl)

    -- Where there are fewer than 2 ^ 31 identities, a policy is compiled exactly if every index in
    -- it names an identity and every part of it has a type.
    pub compile_iff :
        (p : SignaturePolicy) → Succeeds (compile verify_signature p identities) ↔ IsWf identities p
    compile_iff p = (λ (a, e). compile-IsWf p a e, compile_of_wf p)

  module _ (identities : List Bytes) (msg : Bytes) (ids signatures : List Bytes) where
    abbrev signed : Assoc Bytes Bytes
    signed = paired ids signatures

    verify_from-first :
        (id x : Bytes) (rest : List Bytes) (i : ℕ) (s : Bytes) (later : List Bytes)
        → get_elem? signatures i ≡ some s
        → verify_from verify_signature id msg rest (suc i) signatures
          ≡ some (has_signed verify_signature identities msg (paired rest later) id)
        → verify_from verify_signature id msg (x ∷ rest) i signatures
          ≡ some (has_signed verify_signature identities msg (paired (x ∷ rest) (s ∷ later)) id)
    unfolding verify_from
    verify_from-first id x rest i s later e h = elim (Bool-cases (x == id)) [
      | inl same ↦
          rw (verify_from, has_signed, lookup, same, e)
            (ap (λ y. some (verify_signature msg y s)) ((==_iff x id).0 same))
      | inr other ↦ rw (verify_from, has_signed, lookup, other) h
    ]

    verify_from-has_signed :
        (id : Bytes) (rest : List Bytes) (i : ℕ)
        → length rest + i ≤ length signatures
        → verify_from verify_signature id msg rest i signatures
          ≡ some (has_signed verify_signature identities msg (paired rest (drop i signatures)) id)
    unfolding verify_from
    verify_from-has_signed id [] i h = refl
    verify_from-has_signed id (x ∷ rest) i h =
        let (s, e, f) = get_elem-drop signatures i (omega (arith, h)) in
        let later = verify_from-has_signed id rest (suc i) (omega (arith, h)) in
        rw f (verify_from-first id x rest i s (drop (suc i) signatures) e later)

    number-le-count :
        (ps : SignaturePolicies)
        → number_satisfied verify_signature identities msg signed ps ≤ count ps
    number-le-count no_more = omega arith
    number-le-count (also p ps) = ground (arith, number-le-count ps)

    module _ (enough : length ids ≤ length signatures) where
      identity_at-means :
          (i : ℤ) (a : Authenticator)
          → identity_at verify_signature i identities ≡ ok a
          → a msg ids signatures ≡ some (has_signed_at verify_signature identities msg signed i)
      unfolding identity_at verify_signed_by
      identity_at-means (pos i) a e = elim (Option-cases (get_elem? identities i)) [
        | inl f ↦ cc (rw (identity_at, f) at e)
        | inr (id, f) ↦
            let same : verify_signed_by verify_signature id ≡ a = cc (rw (identity_at, f) at e) in
            rw⁻¹ same
              (rw (has_signed_at, f) (verify_from-has_signed id ids 0 (omega (arith, enough))))
      ]
      identity_at-means (negsuc i) a e = cc e

      at_least-means :
          (n : ℤ) (ps : SignaturePolicies) (cs : List Authenticator)
          → count ps < 2 ^ 31
          → run_all cs msg ids signatures
            ≡ some (number_satisfied verify_signature identities msg signed ps)
          → at_least n cs msg ids signatures
            ≡ some (int_leb n (pos (number_satisfied verify_signature identities msg signed ps)))
      unfolding at_least
      at_least-means n ps cs h e =
          rw
            (
              at_least,
              e,
              int32-small (number_satisfied verify_signature identities msg signed ps)
                  (omega (arith, h, number-le-count ps)),
            )
            refl

      tally-some : (v : Bool) (n : ℕ) → tally (some v) (some n) ≡ some (if v then n + 1 else n)
      unfolding tally
      tally-some true n = refl
      tally-some false n = refl

      run_all-none : run_all [] msg ids signatures ≡ some 0
      unfolding run_all
      run_all-none = refl

      run_all-also :
          (c : Authenticator) (rest : List Authenticator) (v : Bool) (n : ℕ)
          → c msg ids signatures ≡ some v
          → run_all rest msg ids signatures ≡ some n
          → run_all (c ∷ rest) msg ids signatures ≡ some (if v then n + 1 else n)
      unfolding run_all
      run_all-also c rest v n e f = rw (e, f) (tally-some v n)

      mutual
        unfolding compile

        compile-means :
            (p : SignaturePolicy) (a : Authenticator)
            → compile verify_signature p identities ≡ ok a
            → IsNarrow p
            → a msg ids signatures ≡ some (satisfied verify_signature identities msg signed p)
        compile-means (signed_by i) a e h = identity_at-means i a (ground (arith, e))
        compile-means (n_out_of n ps) a e h =
            let (cs, f, g) = bind_ok (compile_all verify_signature ps identities) _ a e in
            let same : at_least n cs ≡ a = cc g in
            rw⁻¹ same (at_least-means n ps cs h.0 (compile_all-means ps cs f h.1))
        compile-means unknown a e h = cc e

        compile_all-means :
            (ps : SignaturePolicies) (cs : List Authenticator)
            → compile_all verify_signature ps identities ≡ ok cs
            → AreNarrow ps
            → run_all cs msg ids signatures
              ≡ some (number_satisfied verify_signature identities msg signed ps)
        compile_all-means no_more cs e h = let same : [] ≡ cs = cc e in rw⁻¹ same run_all-none
        compile_all-means (also p ps) cs e h =
            let (c, f, g) = bind_ok (compile verify_signature p identities) _ cs e in
            let (rest, k, l) = bind_ok (compile_all verify_signature ps identities) _ cs g in
            let same : c ∷ rest ≡ cs = cc l in
            rw⁻¹ same (
              run_all-also c rest (satisfied verify_signature identities msg signed p)
                (number_satisfied verify_signature identities msg signed ps)
                (compile-means p c f h.0) (compile_all-means ps rest k h.1))

      -- What a compiled policy answers, given at least as many signatures as identities and no
      -- part with 2 ^ 31 or more parts: whether the policy is satisfied, where an identity counts if
      -- the first signature that goes with it is good. It does not panic.
      pub authenticate-satisfied :
          (p : SignaturePolicy) (a : Authenticator)
          → compile verify_signature p identities ≡ ok a
          → IsNarrow p
          → a msg ids signatures ≡ some (satisfied verify_signature identities msg signed p)
      authenticate-satisfied p a e h = compile-means p a e h
