-- ===== src/Orderer/Sbft/Selection/Quorums.antt =====
-- orderer/sbft/simplebft/xset.go: the conditions on a tuple, without the loops that count.
use fabric.Base.{
  ℕ, zero, suc, ◌≤◌, ◌<◌, ◌≡◌, ◌||◌, ◌&&◌, ◌==◌, ==_iff, refl, not, ltb, ltb→lt, Bool, true, false,
  Bool-cases, inl, inr, ◌⊎◌, List, [], ◌∷◌, All, nat_eq, list_eq, arith,
}
use fabric.Orderer.Sbft.Messages.{Subject}
use fabric.Orderer.Sbft.Xset.{Vote, agrees, count_a1, vouches, count_a2}
use fabric.Orderer.Sbft.Selection.{Any}

-- At least `k` elements, at different places, have the property.
abbrev pub AtLeast : {A : Type 0} → (A → Type 0) → ℕ → List A → Type 0
AtLeast P zero xs = Unit
AtLeast P (suc k) [] = ⊥
AtLeast P (suc k) (x ∷ xs) = (P x × AtLeast P k xs) ⊎ AtLeast P (suc k) xs

-- A tuple for the number of `m` is of an older view, or of the same view with the same digest.
abbrev pub Compatible : Subject → Subject → Type 0
Compatible m p =
    p.seq.seq ≡ m.seq.seq
    → (p.seq.view < m.seq.view) ⊎ ((p.seq.view ≡ m.seq.view) × (p.digest ≡ m.digest))

-- The vote's checkpoint is not above the tuple, and its Pset has nothing against the tuple.
abbrev pub Allows : Subject → Vote → Type 0
Allows m v = (v.0 ≤ m.seq.seq) × All (Compatible m) v.1.pset

-- The vote's Qset has the number and the digest, in the tuple's view or a newer one.
abbrev pub Supports : Subject → Vote → Type 0
Supports m v =
    Any (λ q. (q.seq.seq ≡ m.seq.seq) × (m.seq.view ≤ q.seq.view) × (q.digest ≡ m.digest)) v.1.qset

-- The vote's Pset has no tuple for `next` or a later number.
abbrev pub HasNoneFrom : ℕ → Vote → Type 0
HasNoneFrom next v = All (λ p. p.seq.seq < next) v.1.pset

and_both : (a b : Bool) → (a && b) ≡ true → (a ≡ true) × (b ≡ true)
and_both true b h = (refl, h)
and_both false b h = cc h

compatible :
    (m p : Subject)
    → (not (p.seq.seq == m.seq.seq)
        || (ltb p.seq.view m.seq.view || (p.seq.view == m.seq.view && p.digest == m.digest)))
      ≡ true
    → Compatible m p
compatible m p h e = elim (Bool-cases (ltb p.seq.view m.seq.view)) [
  | inl older ↦ inl (ltb→lt _ _ older)
  | inr newer ↦
      let same = (==_iff p.seq.seq m.seq.seq).1 e in
      let (a, b) = and_both _ _ (rw (same, newer) at h) in
      inr ((==_iff p.seq.view m.seq.view).0 a, (==_iff p.digest m.digest).0 b)
]

agrees-All : (m : Subject) (ps : List Subject) → agrees m ps ≡ true → All (Compatible m) ps
unfolding agrees
agrees-All m [] h = tt
agrees-All m (p ∷ ps) h = let (a, b) = and_both _ _ h in (compatible m p a, agrees-All m ps b)

vouches-Any :
    (m : Subject) (qs : List Subject)
    → vouches m qs ≡ true
    → Any (λ q. (q.seq.seq ≡ m.seq.seq) × (m.seq.view ≤ q.seq.view) × (q.digest ≡ m.digest)) qs
unfolding vouches
vouches-Any m [] h = cc h
vouches-Any m (q ∷ qs) h = elim (Bool-cases (supports q)) [
  | inl t ↦
      let (a, r) = and_both _ _ t in
      let (b, c) = and_both (not (ltb q.seq.view m.seq.view)) (q.digest == m.digest) r in
      inl ((==_iff q.seq.seq m.seq.seq).0 a, ground (arith, b), (==_iff q.digest m.digest).0 c)
  | inr t ↦ inr (vouches-Any m qs (rw t at h))
]
  where
    supports : Subject → Bool
    supports q = q.seq.seq == m.seq.seq && (not (ltb q.seq.view m.seq.view) && q.digest == m.digest)

pub count_a1-AtLeast :
    (m : Subject) (k : ℕ) (vs : List Vote) → k ≤ count_a1 m vs → AtLeast (Allows m) k vs
unfolding count_a1
count_a1-AtLeast m zero vs h = tt
count_a1-AtLeast m (suc k) [] h = omega (arith, h)
count_a1-AtLeast m (suc k) ((seq, vc) ∷ vs) h =
    elim (Bool-cases (not (ltb m.seq.seq seq) && agrees m vc.pset)) [
      | inl t ↦
          let (a, b) = and_both (not (ltb m.seq.seq seq)) (agrees m vc.pset) t in
          let low : seq ≤ m.seq.seq = ground (arith, a) in
          let fewer : k ≤ count_a1 m vs = omega (arith, rw t at h) in
          inl ((low, agrees-All m vc.pset b), count_a1-AtLeast m k vs fewer)
      | inr t ↦ inr (count_a1-AtLeast m (suc k) vs (rw t at h))
    ]

pub count_a2-AtLeast :
    (m : Subject) (k : ℕ) (vs : List Vote) → k ≤ count_a2 m vs → AtLeast (Supports m) k vs
unfolding count_a2
count_a2-AtLeast m zero vs h = tt
count_a2-AtLeast m (suc k) [] h = omega (arith, h)
count_a2-AtLeast m (suc k) ((seq, vc) ∷ vs) h = elim (Bool-cases (vouches m vc.qset)) [
  | inl t ↦
      let fewer : k ≤ count_a2 m vs = omega (arith, rw t at h) in
      inl (vouches-Any m vc.qset t, count_a2-AtLeast m k vs fewer)
  | inr t ↦ inr (count_a2-AtLeast m (suc k) vs (rw t at h))
]
