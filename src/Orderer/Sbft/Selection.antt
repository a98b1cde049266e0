-- ===== src/Orderer/Sbft/Selection.antt =====
-- orderer/sbft/simplebft/xset.go: what `makeXset` selects (Castro's conditions A1, A2 and B).
pub mod Quorums
pub mod Scan
pub mod Choice
use fabric.Base.{
  ℕ, suc, ◌+◌, ◌%◌, ◌^◌, ◌≤◌, ◌≡◌, refl, ap, subst, ltb, leb, leb→le, ltb→lt, Bool, true,
  Bool-cases, inl, inr, ◌⊎◌, if◌then◌else◌, ◌&&◌, Option, none, some, List, [], ◌∷◌, All, ok,
  bind_ok, arith,
}
use fabric.Orderer.Sbft.Messages.{Config, Batch, Subject, ViewChange}
use fabric.Orderer.Sbft.System.{System, no_faulty_quorum, one_correct_quorum}
use fabric.Orderer.Sbft.Xset
use fabric.Orderer.Sbft.Xset.{Vote, count_a1, count_a2}

-- some element has the property
abbrev pub Any : {A : Type 0} → (A → Type 0) → List A → Type 0
Any P [] = ⊥
Any P (x ∷ xs) = P x ⊎ Any P xs

-- the checkpoint of some vote, which no other vote's is above
pub record IsBest (vs : List Vote) (high : ℕ) (best : Batch) : Type 0 where
  pub least : All (λ v. v.0 ≤ high) vs
  pub from : Any (λ v. (v.0 ≡ high) × (v.1.checkpoint ≡ best)) vs

abbrev Better : List Vote → ℕ × Batch → ℕ × Batch → Type 0
Better vs start best =
    (start.0 ≤ best.0)
    × All (λ v. v.0 ≤ best.0) vs
    × ((start ≡ best) ⊎ Any (λ v. (v.0 ≡ best.0) × (v.1.checkpoint ≡ best.1)) vs)

best_of-Better :
    (h : ℕ) (b : Batch) (vs : List Vote) (best : ℕ × Batch)
    → Xset.best_of (some (h, b)) vs ≡ some best
    → Better vs (h, b) best
unfolding Xset.best_of
best_of-Better h b [] best e =
    let p : ◌≡◌ {A = ℕ × Batch} (h, b) best = cc e in
    (omega (arith, ap (λ (t : ℕ × Batch). t.0) p), tt, inl p)
best_of-Better h b ((q, vc) ∷ vs) best e = elim (Bool-cases (ltb h q)) [
  | inl t ↦
      let (l, a, f) = best_of-Better q vc.checkpoint vs best (rw t at e) in
      (
        omega (arith, ltb→lt h q t),
        (l, a),
        inr (elim f [
          | inl p ↦ inl (ap (λ (t : ℕ × Batch). t.0) p, ap (λ (t : ℕ × Batch). t.1) p)
          | inr g ↦ inr g
        ]),
      )
  | inr t ↦
      let (l, a, f) = best_of-Better h b vs best (rw t at e) in
      (l, (ground arith, a), elim f [ inl p ↦ inl p | inr g ↦ inr (inr g) ])
]

pub best_of-IsBest :
    (vs : List Vote) (h : ℕ) (b : Batch) → Xset.best_of none vs ≡ some (h, b) → IsBest vs h b
unfolding Xset.best_of
best_of-IsBest [] h b e = cc e
best_of-IsBest ((q, vc) ∷ vs) h b e =
    let (l, a, f) = best_of-Better q vc.checkpoint vs (h, b) e in
    record {
      least = (l, a);
      from = elim f [
        | inl p ↦ inl (ap (λ (t : ℕ × Batch). t.0) p, ap (λ (t : ℕ × Batch). t.1) p)
        | inr g ↦ inr g
      ];
    }
