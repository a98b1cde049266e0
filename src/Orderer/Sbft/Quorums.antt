-- ===== src/Orderer/Sbft/Quorums.antt =====
-- orderer/sbft/simplebft/checkpoint.go: the signatures of a batch that is delivered.
use fabric.Base.{
  ℕ, suc, ◌≤◌, ◌≡◌, refl, sym, ap, subst, ◌∙◌, true, false, Bool-cases, inl, inr, ◌⊎◌, ◌==◌, ==_iff,
  ==_refl, nat_eq, list_eq, if◌then◌else◌, leb, leb→le, Option, none, some, List, [], ◌∷◌, ◌++◌,
  append_assoc, Bytes, length, length-append, All, arith,
}
use mathlib.Core.List.{append-nil}
use fabric.Base.Assoc.{
  Assoc, lookup, insert, Fresh, Distinct, lookup-insert, Fresh-insert, Distinct-insert,
}
use fabric.Orderer.Sbft.Messages.{Checkpoint}
use fabric.Orderer.Sbft.System.{System}
use fabric.Orderer.Sbft.Checkpoints
use fabric.Orderer.Sbft.Checkpoints.{Sums, sum_at}

-- the replicas whose checkpoints have the digest
unfoldable pub sources : Bytes → Assoc ℕ Checkpoint → List ℕ
sources d [] = []
sources d ((src, c) ∷ cs) = let rest = sources d cs in if c.digest == d then src ∷ rest else rest

sum_at-insert :
    (k d : Bytes) (rs : List ℕ) (sums : Sums)
    → sum_at d (insert k rs sums) ≡ (if k == d then rs else sum_at d sums)
unfolding sum_at
sum_at-insert k d rs sums = ground (arith, lookup-insert k d rs sums)

sum_at-step :
    (d : Bytes) (src : ℕ) (c : Checkpoint) (cs : Assoc ℕ Checkpoint) (sums : Sums)
    → (sum_at d (insert c.digest (sum_at c.digest sums ++ (src ∷ [])) sums) ++ sources d cs)
      ≡ (sum_at d sums ++ sources d ((src, c) ∷ cs))
unfolding sources
sum_at-step d src c cs sums = elim (Bool-cases (c.digest == d)) [
  | inl t ↦
      let p : c.digest ≡ d = (==_iff c.digest d).0 t in
      rw (sum_at-insert c.digest d (sum_at c.digest sums ++ (src ∷ [])) sums, t)
        (rw p (append_assoc (sum_at d sums) (src ∷ []) (sources d cs)))
  | inr t ↦ rw (sum_at-insert c.digest d (sum_at c.digest sums ++ (src ∷ [])) sums, t) refl
]

tally_sums-sum :
    (quorum : ℕ) (d : Bytes) (cs : Assoc ℕ Checkpoint) (sums : Sums) (max : Option Bytes)
    → sum_at d (Checkpoints.tally_sums quorum cs sums max).0 ≡ (sum_at d sums ++ sources d cs)
unfolding Checkpoints.tally_sums sources
tally_sums-sum quorum d [] sums max = sym (append-nil (sum_at d sums))
tally_sums-sum quorum d ((src, c) ∷ cs) sums max =
    tally_sums-sum quorum d cs _ _ ∙ sum_at-step d src c cs sums

-- `max` is a digest that has reached the quorum.
Reached : ℕ → Sums → Option Bytes → Type 0
Reached quorum sums max = (d : Bytes) → max ≡ some d → quorum ≤ length (sum_at d sums)

reach-step :
    (quorum src : ℕ) (c : Checkpoint) (sums : Sums) (max : Option Bytes)
    → Reached quorum sums max
    → Reached quorum
        (insert c.digest (sum_at c.digest sums ++ (src ∷ [])) sums)
        (if leb quorum (length (sum_at c.digest sums ++ (src ∷ []))) then some c.digest else max)
unfolding Reached
reach-step quorum src c sums max r d e = elim (Bool-cases (c.digest == d)) [
  | inl t ↦
      rw (sum_at-insert c.digest d rs sums, t)
        (enough ((==_iff c.digest d).0 t) (Bool-cases (leb quorum (length rs))))
  | inr t ↦
      rw (sum_at-insert c.digest d rs sums, t) (r d (kept t (Bool-cases (leb quorum (length rs)))))
]
  where
    rs : List ℕ
    rs = sum_at c.digest sums ++ (src ∷ [])

    enough :
        c.digest ≡ d
        → (leb quorum (length rs) ≡ true) ⊎ (leb quorum (length rs) ≡ false)
        → quorum ≤ length rs
    enough p (inl q) = leb→le _ _ q
    enough p (inr q) = omega (
      arith,
      r d (rw q at e),
      length-append {0} (sum_at c.digest sums) (src ∷ []),
      ap (λ x. length (sum_at x sums)) p,
    )

    kept :
        (c.digest == d) ≡ false
        → (leb quorum (length rs) ≡ true) ⊎ (leb quorum (length rs) ≡ false)
        → max ≡ some d
    kept t (inl q) = ground (arith, ==_iff c.digest d)
    kept t (inr q) = rw q at e

tally_sums-Reached :
    (quorum : ℕ) (cs : Assoc ℕ Checkpoint) (sums : Sums) (max : Option Bytes)
    → Reached quorum sums max
    → Reached quorum
        (Checkpoints.tally_sums quorum cs sums max).0
        (Checkpoints.tally_sums quorum cs sums max).1
unfolding Checkpoints.tally_sums
tally_sums-Reached quorum [] sums max r = r
tally_sums-Reached quorum ((src, c) ∷ cs) sums max r =
    tally_sums-Reached quorum cs _ _ (reach-step quorum src c sums max r)

-- no replicas, or a quorum whose checkpoints have one digest
unfoldable pub Weak : ℕ → Assoc ℕ Checkpoint → List ℕ → Type 0
Weak quorum cs rs =
    (rs ≡ []) ⊎ ((d : Bytes) × (rs ≡ sources d cs) × (quorum ≤ length (sources d cs)))

weak_quorum-Weak :
    (quorum : ℕ) (cs : Assoc ℕ Checkpoint) (out : Sums × Option Bytes)
    → ((d : Bytes) → sum_at d out.0 ≡ sources d cs)
    → Reached quorum out.0 out.1
    → Weak quorum cs (Checkpoints.weak_quorum out)
unfolding Checkpoints.weak_quorum Weak Reached
weak_quorum-Weak quorum cs (sums, none) e r = inl refl
weak_quorum-Weak quorum cs (sums, some d) e r =
    inr (d, e d, subst (λ x. quorum ≤ length x) (e d) (r d refl))

pub tally-Weak :
    (quorum : ℕ) (cs : Assoc ℕ Checkpoint)
    → Weak quorum cs (Checkpoints.weak_quorum (Checkpoints.tally_sums quorum cs [] none))
unfolding Reached sum_at
tally-Weak quorum cs =
    weak_quorum-Weak quorum cs (Checkpoints.tally_sums quorum cs [] none)
      (λ d. tally_sums-sum quorum d cs [] none) (tally_sums-Reached quorum cs [] none λ d e. cc e)

unfoldable pub Found : Assoc ℕ Checkpoint → Assoc ℕ Checkpoint → Type 0
Found cs = All (λ e. lookup e.0 cs ≡ some e.1)

later-Found :
    (j : ℕ) (w : Checkpoint) (cs ws : Assoc ℕ Checkpoint)
    → Fresh j ws
    → Found cs ws
    → Found ((j, w) ∷ cs) ws
unfolding Found
later-Found j w cs [] f h = tt
later-Found j w cs ((i, c) ∷ ws) f h = ground (arith, ==_iff i j, ==_iff j i, later-Found j w cs ws)

pub Distinct-Found : (cs : Assoc ℕ Checkpoint) → Distinct cs → Found cs cs
unfolding Found
Distinct-Found [] h = tt
Distinct-Found ((j, w) ∷ cs) (f, h) =
    (rw (==_refl j) refl, later-Found j w cs cs f (Distinct-Found cs h))

length-insert-Fresh :
    (k : ℕ) (v : Bytes) (m : Assoc ℕ Bytes) → Fresh k m → length (insert k v m) ≡ suc (length m)
length-insert-Fresh k v [] f = refl
length-insert-Fresh k v ((j, w) ∷ m) (e, f) = ground (arith, length-insert-Fresh k v m)

-- The signatures are from as many replicas as the quorum asks for, and each is valid.
pub record IsProof (sys : System) (quorum : ℕ) (digest : Bytes) (sigs : Assoc ℕ Bytes)
    : Type 0 where
  pub many : quorum ≤ length sigs
  pub distinct : Distinct sigs
  pub valid : All (λ e. sys.check_sig digest e.0 e.1 ≡ true) sigs

unfoldable pub AreSigned : System → Assoc ℕ Checkpoint → Type 0
AreSigned sys = All (λ e. sys.check_sig e.1.digest e.0 e.1.signature ≡ true)

cpset-some :
    (r : ℕ) (c : Checkpoint) (cs : Assoc ℕ Checkpoint) (rs : List ℕ)
    → lookup r cs ≡ some c
    → Checkpoints.cpset cs (r ∷ rs) ≡ insert r c.signature (Checkpoints.cpset cs rs)
unfolding Checkpoints.cpset
cpset-some r c cs rs e = ground arith

cpset-Fresh :
    (i : ℕ) (d : Bytes) (cs ws : Assoc ℕ Checkpoint)
    → Found cs ws
    → Fresh i ws
    → Fresh i (Checkpoints.cpset cs (sources d ws))
unfolding Found Checkpoints.cpset sources
cpset-Fresh i d cs [] h f = tt
cpset-Fresh i d cs ((j, c) ∷ ws) (e, h) (n, f) = elim (Bool-cases (c.digest == d)) [
  | inl t ↦
      rw (t, cpset-some j c cs (sources d ws) e)
        (Fresh-insert i j c.signature _ n (cpset-Fresh i d cs ws h f))
  | inr t ↦ rw t (cpset-Fresh i d cs ws h f)
]

All-insert-valid :
    (P : ℕ × Bytes → Type 0) (k : ℕ) (v : Bytes) (m : Assoc ℕ Bytes)
    → P (k, v)
    → All P m
    → All P (insert k v m)
All-insert-valid P k v [] p h = (p, tt)
All-insert-valid P k v ((j, w) ∷ m) p (q, h) = ground (arith, All-insert-valid P k v m)

pub cpset-IsProof :
    (sys : System) (d : Bytes) (cs ws : Assoc ℕ Checkpoint)
    → Found cs ws
    → Distinct ws
    → AreSigned sys ws
    → IsProof sys (length (sources d ws)) d (Checkpoints.cpset cs (sources d ws))
unfolding Found AreSigned Checkpoints.cpset sources
cpset-IsProof sys d cs [] h n g = record { many = omega arith; distinct = tt; valid = tt }
cpset-IsProof sys d cs ((j, c) ∷ ws) (e, h) (n, m) (g, k) = elim (Bool-cases (c.digest == d)) [
  | inl t ↦
      let rest = cpset-IsProof sys d cs ws h m k in
      rw (t, cpset-some j c cs (sources d ws) e)
        record {
          many =
              omega
                (arith, rest.many, length-insert-Fresh j c.signature _ (cpset-Fresh j d cs ws h n));
          distinct = Distinct-insert j c.signature _ rest.distinct;
          valid =
              All-insert-valid _ j c.signature _
                (subst (λ x. sys.check_sig x j c.signature ≡ true) ((==_iff c.digest d).0 t) g)
                rest.valid;
        }
  | inr t ↦ rw t (cpset-IsProof sys d cs ws h m k)
]
