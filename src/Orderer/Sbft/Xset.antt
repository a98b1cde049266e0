-- ===== src/Orderer/Sbft/Xset.antt =====
-- orderer/sbft/simplebft/xset.go: the subject that a new view starts with, from view changes.
use fabric.Base.{
  ℕ, suc, ◌+◌, ◌%◌, ◌^◌, ltb, leb, Bool, true, false, if◌then◌else◌, not, ◌&&◌, ◌||◌, ◌==◌, nat_eq,
  list_eq, Option, none, some, List, [], ◌∷◌, Result, ok, ◌>>=◌,
}
use fabric.Orderer.Sbft.Messages.{Config, Batch, Subject, ViewChange}
use fabric.Orderer.Sbft.System.{System, Crash, decode_header, no_faulty_quorum, one_correct_quorum}

-- A view change with the sequence number of its checkpoint.
abbrev pub Vote : Type 0
Vote = ℕ × ViewChange

-- A1, for one view change: its tuples for the same number are older, or the same
unfoldable pub agrees : Subject → List Subject → Bool
agrees m [] = true
agrees m (p ∷ ps) =
    (not (p.seq.seq == m.seq.seq)
      || (ltb p.seq.view m.seq.view || (p.seq.view == m.seq.view && p.digest == m.digest)))
    && agrees m ps

-- A1: the view changes whose checkpoint is not above the tuple and that agree with it
unfoldable pub count_a1 : Subject → List Vote → ℕ
unfolding agrees
count_a1 m [] = 0
count_a1 m ((seq, vc) ∷ vs) =
    let rest = count_a1 m vs in
    if not (ltb m.seq.seq seq) && agrees m vc.pset then suc rest else rest

-- A2, for one view change: some tuple has the number and the digest, in no older view
unfoldable pub vouches : Subject → List Subject → Bool
vouches m [] = false
vouches m (q ∷ qs) =
    (q.seq.seq == m.seq.seq && (not (ltb q.seq.view m.seq.view) && q.digest == m.digest))
    || vouches m qs

unfoldable pub count_a2 : Subject → List Vote → ℕ
unfolding vouches
count_a2 m [] = 0
count_a2 m ((seq, vc) ∷ vs) =
    let rest = count_a2 m vs in if vouches m vc.qset then suc rest else rest

-- The body of the loop over a Pset: a tuple that is selected, and `notfound`.
unfoldable pub scan_pset : Config → List Vote → ℕ → List Subject → Bool → Option Subject × Bool
unfolding count_a1 count_a2
scan_pset c vs next [] notfound = (none, notfound)
scan_pset c vs next (m ∷ ms) notfound =
    let rest = scan_pset c vs next ms (notfound && ltb m.seq.seq next) in
    if ltb m.seq.seq next
    then rest
    else if leb (no_faulty_quorum c) (count_a1 m vs) && leb (one_correct_quorum c) (count_a2 m vs)
    then (some m, false)
    else rest

-- A selected tuple ends both loops. Otherwise `emptycount` counts the Psets without a tuple for
-- `next` or later.
unfoldable pub scan_step : Option Subject × Bool → (ℕ → Option Subject × ℕ) → ℕ → Option Subject × ℕ
scan_step (some m, notfound) rest emptycount = (some m, emptycount)
scan_step (none, notfound) rest emptycount = rest (if notfound then suc emptycount else emptycount)

unfoldable pub scan_votes : Config → List Vote → ℕ → List Vote → ℕ → Option Subject × ℕ
unfolding scan_pset scan_step
scan_votes c vs next [] emptycount = (none, emptycount)
scan_votes c vs next ((seq, vc) ∷ ws) emptycount =
    scan_step (scan_pset c vs next vc.pset true) (scan_votes c vs next ws) emptycount

-- The best checkpoint: the first of those with the highest number.
unfoldable pub best_of : Option (ℕ × Batch) → List Vote → Option (ℕ × Batch)
best_of best [] = best
best_of none ((seq, vc) ∷ vs) = best_of (some (seq, vc.checkpoint)) vs
best_of (some (high, b)) ((seq, vc) ∷ vs) =
    best_of (some (if ltb high seq then (seq, vc.checkpoint) else (high, b))) vs

unfoldable pub selected : ℕ → ℕ → Batch → Option Subject → Option (Option Subject × Batch)
selected view next best none = none
selected view next best (some m) =
    some (some record { seq = record { view = view; seq = next }; digest = m.digest }, best)

unfoldable pub select :
    ℕ → ℕ → Batch → Config → Option Subject × ℕ → Option (Option Subject × Batch)
unfolding selected
select view next best c (found, emptycount) =
    if leb (no_faulty_quorum c) emptycount then some (none, best) else selected view next best found

unfoldable pub select_from :
    Config → ℕ → List Vote → Option (ℕ × Batch) → Option (Option Subject × Batch)
unfolding scan_votes select
select_from c view vs none = none
select_from c view vs (some (high, best)) =
    let next = (high + 1) % 2 ^ 64 in select view next best c (scan_votes c vs next vs 0)

unfoldable pub xset_of : Config → ℕ → List Vote → Option (Option Subject × Batch)
unfolding best_of select_from
xset_of c view vs = select_from c view vs (best_of none vs)

module _ (sys : System) where
  -- The first loop decodes the header of every checkpoint.
  unfoldable pub number : List ViewChange → Result Crash (List Vote)
  number [] = ok []
  number (vc ∷ vcs) = do
    h ← decode_header sys vc.checkpoint
    rest ← number vcs
    ok ((h.seq, vc) ∷ rest)

  unfoldable pub make_xset :
      Config → ℕ → List ViewChange → Result Crash (Option (Option Subject × Batch))
  unfolding number xset_of
  make_xset c view vcs = do vs ← number vcs; ok (xset_of c view vs)
