-- ===== src/Orderer/Sbft/Selection/Scan.antt =====
-- orderer/sbft/simplebft/xset.go: the search for a subject (A1, A2).
use fabric.Base.{
  ℕ, suc, ◌+◌, ◌≤◌, ◌<◌, ◌≡◌, refl, ap, subst, ltb, ltb→lt, leb, leb→le, zero, All, Bool, true,
  Bool-cases, inl, inr, if◌then◌else◌, ◌&&◌, Option, none, some, List, [], ◌∷◌, arith,
}
use fabric.Orderer.Sbft.Messages.{Config, Subject, ViewChange}
use fabric.Orderer.Sbft.System.{no_faulty_quorum, one_correct_quorum}
use fabric.Orderer.Sbft.Xset
use fabric.Orderer.Sbft.Xset.{Vote, count_a1, count_a2}
use fabric.Orderer.Sbft.Selection.{Any}
use fabric.Orderer.Sbft.Selection.Quorums.{
  AtLeast, Allows, Supports, HasNoneFrom, count_a1-AtLeast, count_a2-AtLeast,
}

-- the votes without a tuple for `next` or later: those that `emptycount` counts
unfoldable pub all_below : ℕ → List Subject → Bool
all_below next [] = true
all_below next (m ∷ ms) = ltb m.seq.seq next && all_below next ms

unfoldable pub count_below : ℕ → List Vote → ℕ
unfolding all_below
count_below next [] = 0
count_below next ((seq, vc) ∷ vs) =
    let rest = count_below next vs in if all_below next vc.pset then suc rest else rest

and_left : (a b : Bool) → (a && b) ≡ true → a ≡ true
and_left a b h = ground arith

and_right : (a b : Bool) → (a && b) ≡ true → b ≡ true
and_right a b h = ground arith

all_below-All :
    (next : ℕ) (ms : List Subject) → all_below next ms ≡ true → All (λ p. p.seq.seq < next) ms
unfolding all_below
all_below-All next [] h = tt
all_below-All next (m ∷ ms) h =
    (ltb→lt _ _ (and_left _ _ h), all_below-All next ms (and_right _ _ h))

pub count_below-AtLeast :
    (next k : ℕ) (vs : List Vote) → k ≤ count_below next vs → AtLeast (HasNoneFrom next) k vs
unfolding count_below
count_below-AtLeast next zero vs h = tt
count_below-AtLeast next (suc k) [] h = omega (arith, h)
count_below-AtLeast next (suc k) ((seq, vc) ∷ vs) h = elim (Bool-cases (all_below next vc.pset)) [
  | inl t ↦
      let fewer : k ≤ count_below next vs = omega (arith, rw t at h) in
      inl (all_below-All next vc.pset t, count_below-AtLeast next k vs fewer)
  | inr t ↦ inr (count_below-AtLeast next (suc k) vs (rw t at h))
]

-- The tuple is for `next` or later; n-f votes allow it, and f+1 support it.
pub record IsSelected (c : Config) (vs : List Vote) (next : ℕ) (m : Subject) : Type 0 where
  pub recent : next ≤ m.seq.seq
  pub a1 : AtLeast (Allows m) (no_faulty_quorum c) vs
  pub a2 : AtLeast (Supports m) (one_correct_quorum c) vs

scan_pset-some :
    (c : Config) (vs : List Vote) (next : ℕ) (ms : List Subject) (b : Bool) (m : Subject) (n : Bool)
    → Xset.scan_pset c vs next ms b ≡ (some m, n)
    → IsSelected c vs next m × Any (λ p. p ≡ m) ms
unfolding Xset.scan_pset
scan_pset-some c vs next [] b m n e = cc (ap (λ (t : Option Subject × Bool). t.0) e)
scan_pset-some c vs next (p ∷ ps) b m n e = elim (Bool-cases (ltb p.seq.seq next)) [
  | inl t ↦ later (scan_pset-some c vs next ps _ m n (rw t at e))
  | inr t ↦ elim (Bool-cases enough) [
    | inl q ↦
        let same : p ≡ m = cc (rw (t, q) at e) in
        (
          subst (IsSelected c vs next) same record {
            recent = ground (arith, t);
            a1 = count_a1-AtLeast p _ vs (leb→le _ _ (and_left _ _ q));
            a2 = count_a2-AtLeast p _ vs (leb→le _ _ (and_right _ _ q));
          },
          inl same,
        )
    | inr q ↦ later (scan_pset-some c vs next ps _ m n (rw (t, q) at e))
  ]
]
  where
    enough : Bool
    enough = leb (no_faulty_quorum c) (count_a1 p vs) && leb (one_correct_quorum c) (count_a2 p vs)

    later :
        IsSelected c vs next m × Any (λ x. x ≡ m) ps
        → IsSelected c vs next m × Any (λ x. x ≡ m) (p ∷ ps)
    later (h, g) = (h, inr g)

scan_pset-none :
    (c : Config) (vs : List Vote) (next : ℕ) (ms : List Subject) (b n : Bool)
    → Xset.scan_pset c vs next ms b ≡ (none, n)
    → n ≡ (b && all_below next ms)
unfolding Xset.scan_pset all_below
scan_pset-none c vs next [] b n e = ground arith
scan_pset-none c vs next (p ∷ ps) b n e =
    ground (arith, scan_pset-none c vs next ps (b && ltb p.seq.seq next) n)

-- A tuple of some vote is selected.
abbrev pub SelectedFrom : Config → List Vote → ℕ → List Vote → Subject → Type 0
SelectedFrom c vs next ws m = IsSelected c vs next m × Any (λ w. Any (λ p. p ≡ m) w.1.pset) ws

abbrev pub Scanned : Config → List Vote → ℕ → List Vote → ℕ → Option Subject × ℕ → Type 0
Scanned c vs next ws start out =
    ((m : Subject) → out.0 ≡ some m → SelectedFrom c vs next ws m)
    × (out.1 ≤ start + count_below next ws)

scan_found :
    (c : Config) (vs : List Vote) (next q : ℕ) (vc : ViewChange) (ws : List Vote) (m p : Subject)
    (n : Bool)
    → some m ≡ some p
    → Xset.scan_pset c vs next vc.pset true ≡ (some m, n)
    → SelectedFrom c vs next ((q, vc) ∷ ws) p
scan_found c vs next q vc ws m p n h e =
    let same : m ≡ p = cc h in
    let (i, a) = scan_pset-some c vs next vc.pset true m n e in
    subst (SelectedFrom c vs next ((q, vc) ∷ ws)) same (i, inl a)

counted :
    (next q : ℕ) (vc : ViewChange) (ws : List Vote) (start out : ℕ) (n : Bool)
    → n ≡ (true && all_below next vc.pset)
    → out ≤ (if n then suc start else start) + count_below next ws
    → out ≤ start + count_below next ((q, vc) ∷ ws)
unfolding count_below
counted next q vc ws start out n e l = ground arith

pub scan_votes-Scanned :
    (c : Config) (vs : List Vote) (next : ℕ) (ws : List Vote) (start : ℕ)
    → Scanned c vs next ws start (Xset.scan_votes c vs next ws start)
unfolding Xset.scan_votes Xset.scan_step
scan_votes-Scanned c vs next [] start = (λ m e. cc e, omega arith)
scan_votes-Scanned c vs next ((q, vc) ∷ ws) start =
    go (Xset.scan_pset c vs next vc.pset true) refl (scan_votes-Scanned c vs next ws)
  where
    go :
        (r : Option Subject × Bool)
        → Xset.scan_pset c vs next vc.pset true ≡ r
        → ((n : ℕ) → Scanned c vs next ws n (Xset.scan_votes c vs next ws n))
        → Scanned c vs next
            ((q, vc) ∷ ws)
            start
            (Xset.scan_step r (Xset.scan_votes c vs next ws) start)
    go (some m, n) e k = (λ p h. scan_found c vs next q vc ws m p n h e, omega arith)
    go (none, n) e k =
        let (f, l) = k (if n then suc start else start) in
        (
          λ m h. let (i, a) = f m h in (i, inr a),
          counted next q vc ws start _ n (scan_pset-none c vs next vc.pset true n e) l,
        )
