-- ===== src/Orderer/Sbft/Selection/Choice.antt =====
-- orderer/sbft/simplebft/xset.go: the result of `makeXset`.
use fabric.Base.{
  ℕ, ◌+◌, ◌%◌, ◌^◌, ◌≡◌, refl, ap, subst, leb, leb→le, Bool-cases, inl, inr, Option, none, some,
  List, ok, bind_ok, arith,
}
use fabric.Orderer.Sbft.Messages.{Config, Batch, Subject, ViewChange}
use fabric.Orderer.Sbft.System.{System, no_faulty_quorum}
use fabric.Orderer.Sbft.Xset
use fabric.Orderer.Sbft.Xset.{Vote, count_a1, count_a2}
use fabric.Orderer.Sbft.Selection.{IsBest, best_of-IsBest}
use fabric.Orderer.Sbft.Selection.Scan.{
  SelectedFrom, Scanned, scan_votes-Scanned, count_below-AtLeast,
}
use fabric.Orderer.Sbft.Selection.Quorums.{AtLeast, HasNoneFrom}

-- The result for the votes `vs` in `view`. Without a subject n-f of the votes have no tuple for the
-- number after the best checkpoint or later. A subject has that number, the view, and the digest of
-- a tuple from a vote that is selected.
pub record IsChoice (c : Config) (view : ℕ) (vs : List Vote) (x : Option Subject) (best : Batch)
    : Type 0 where
  pub high : ℕ
  pub is_best : IsBest vs high best
  pub null : x ≡ none → AtLeast (HasNoneFrom ((high + 1) % 2 ^ 64)) (no_faulty_quorum c) vs
  pub chosen :
      (s : Subject)
      → x ≡ some s
      → (m : Subject) × SelectedFrom c vs ((high + 1) % 2 ^ 64) vs m
        × (s
            ≡ record { seq = record { view = view; seq = (high + 1) % 2 ^ 64 }; digest = m.digest })

selected-IsChoice :
    (c : Config) (view high : ℕ) (vs : List Vote) (b : Batch) (x : Option Subject) (best : Batch)
    (found : Option Subject)
    → IsBest vs high b
    → ((m : Subject) → found ≡ some m → SelectedFrom c vs ((high + 1) % 2 ^ 64) vs m)
    → Xset.selected view ((high + 1) % 2 ^ 64) b found ≡ some (x, best)
    → IsChoice c view vs x best
unfolding Xset.selected
selected-IsChoice c view high vs b x best none i f e = cc e
selected-IsChoice c view high vs b x best (some m) i f e = record {
  high = high;
  is_best = subst (IsBest vs high) (ap (λ (t : Option Subject × Batch). t.1) p) i;
  null = λ h. cc (h, ap (λ (t : Option Subject × Batch). t.0) p);
  chosen = λ s h. (m, f m refl, cc (h, ap (λ (t : Option Subject × Batch). t.0) p));
}
  where
    p :
        ◌≡◌ {A = Option Subject × Batch}
          (
            some record {
              seq = record { view = view; seq = (high + 1) % 2 ^ 64 };
              digest = m.digest;
            },
            b,
          )
          (x, best)
    p = cc e

select-IsChoice :
    (c : Config) (view high : ℕ) (vs : List Vote) (b : Batch) (x : Option Subject) (best : Batch)
    (out : Option Subject × ℕ)
    → IsBest vs high b
    → Scanned c vs ((high + 1) % 2 ^ 64) vs 0 out
    → Xset.select view ((high + 1) % 2 ^ 64) b c out ≡ some (x, best)
    → IsChoice c view vs x best
unfolding Xset.select
select-IsChoice c view high vs b x best (found, n) i (f, l) e =
    elim (Bool-cases (leb (no_faulty_quorum c) n)) [
      | inl q ↦
          let p : ◌≡◌ {A = Option Subject × Batch} (none, b) (x, best) = cc (rw q at e) in
          record {
            high = high;
            is_best = subst (IsBest vs high) (ap (λ (t : Option Subject × Batch). t.1) p) i;
            null = λ h. count_below-AtLeast _ _ vs (omega (arith, l, leb→le _ _ q));
            chosen = λ s h. cc (ap (λ (t : Option Subject × Batch). t.0) p, h);
          }
      | inr q ↦ selected-IsChoice c view high vs b x best found i f (rw q at e)
    ]

select_from-IsChoice :
    (c : Config) (view : ℕ) (vs : List Vote) (x : Option Subject) (best : Batch)
    (o : Option (ℕ × Batch))
    → Xset.best_of none vs ≡ o
    → Xset.select_from c view vs o ≡ some (x, best)
    → IsChoice c view vs x best
unfolding Xset.select_from
select_from-IsChoice c view vs x best none h e = cc e
select_from-IsChoice c view vs x best (some (high, b)) h e =
    select-IsChoice c view high vs b x best _ (best_of-IsBest vs high b h)
      (scan_votes-Scanned c vs ((high + 1) % 2 ^ 64) vs 0) e

-- Where `makeXset` answers for some view changes, it has read the header of each checkpoint, and
-- its batch is a checkpoint of one of them that no other is above. Without a subject, n-f view
-- changes have in their Psets only tuples for numbers up to that checkpoint's. A subject has the
-- number after that checkpoint (which wraps), the view, and the digest of a tuple in some Pset for that number or
-- a later one, such that: n-f view changes have a checkpoint that is not above the tuple, and in
-- their Psets for its number only tuples of older views, or of its view and with its digest (the
-- code's A1); and f+1 have in their Qsets a tuple for its number, with its digest, of its view or a
-- newer one (the code's A2).
pub make_xset-IsChoice :
    (sys : System) (c : Config) (view : ℕ) (vcs : List ViewChange) (x : Option Subject)
    (best : Batch)
    → Xset.make_xset sys c view vcs ≡ ok (some (x, best))
    → (vs : List Vote) × (Xset.number sys vcs ≡ ok vs) × IsChoice c view vs x best
unfolding Xset.make_xset Xset.xset_of
make_xset-IsChoice sys c view vcs x best e =
    let (vs, p, q) = bind_ok (Xset.number sys vcs) _ (some (x, best)) e in
    let r : Xset.select_from c view vs (Xset.best_of none vs) ≡ some (x, best) = cc q in
    (vs, p, select_from-IsChoice c view vs x best (Xset.best_of none vs) refl r)
