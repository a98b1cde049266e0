-- ===== src/Orderer/Sbft/Certificates/Start.antt =====
-- orderer/sbft/simplebft/simplebft.go: the votes of a replica that `New` has made.
use fabric.Base.{
  ℕ, ◌≡◌, refl, subst, Bool-cases, inl, inr, ltb, Option, none, some, Result, ok, arith, nat_eq,
  bind_ok,
}
use fabric.Orderer.Sbft.Messages.{Config, SeqView, Preprepare, Batch}
use fabric.Orderer.Sbft.System.{System, Crash}
use fabric.Orderer.Sbft.State
use fabric.Orderer.Sbft.State.{Sbft, ReqInfo, ReplicaInfo, World, entries}
use fabric.Orderer.Sbft.Phases
use fabric.Orderer.Sbft.Replica
use fabric.Orderer.Sbft.Certificates.{IsVoted, fresh_cur-IsVoted}

blank-IsVoted :
    (sys : System) (id : ℕ) (c : Config) (w : World) → IsVoted sys c (Replica.blank sys id c w).cur
unfolding Replica.blank
blank-IsVoted sys id c w = record {
  once = (tt, tt, tt);
  prepares = λ n. tt;
  commits = λ n. tt;
  checkpoints = λ n. tt;
  signed = tt;
  prepared = λ t. tt;
  committed = λ t. tt;
}

-- What `New` does to `cur` before any vote.
Unvoted : System → Config → Sbft → Type 0
Unvoted sys c s = (s.config ≡ c) × (s.world.stored_commit ≡ none) × IsVoted sys c s.cur

-- Where the result is a state, that state has no votes.
AreUnvoted : System → Config → Result Crash Sbft → Type 0
AreUnvoted sys c r = (t : Sbft) → r ≡ ok t → Unvoted sys c t

module _ (sys : System) (c : Config) where
  ok-AreUnvoted : (s : Sbft) → Unvoted sys c s → AreUnvoted sys c (ok s)
  unfolding AreUnvoted
  ok-AreUnvoted s u t e = let p : s ≡ t = cc e in subst (Unvoted sys c) p u

  accept-Unvoted :
      (seq : SeqView) (b : Batch) (s : Sbft)
      → Unvoted sys c s
      → Unvoted sys c (Phases.accept_preprepare sys seq b s)
  unfolding Unvoted Phases.accept_preprepare Phases.persist_preprepare State.arm
  accept-Unvoted seq b s u =
      (u.0, u.1, fresh_cur-IsVoted sys c seq (sys.hash b.header) (some s.world.next_timer) b)

  restore_batch-AreUnvoted :
      (seq : SeqView) (o : Option Batch) (s : Sbft)
      → Unvoted sys c s
      → AreUnvoted sys c (Replica.restore_batch sys seq o s)
  unfolding AreUnvoted Replica.restore_batch
  restore_batch-AreUnvoted seq none s u = λ t e. cc e
  restore_batch-AreUnvoted seq (some b) s u =
      ok-AreUnvoted (Phases.accept_preprepare sys seq b s) (accept-Unvoted seq b s u)

  viewed-Unvoted : (s : Sbft) (v : ℕ) → Unvoted sys c s → Unvoted sys c record s { view = v }
  unfolding Unvoted
  viewed-Unvoted s v u = u

  restore_preprepare-AreUnvoted :
      (s : Sbft) (seq : ℕ) (o : Option Preprepare)
      → Unvoted sys c s
      → AreUnvoted sys c (Replica.restore_preprepare sys o s seq)
  unfolding Replica.restore_preprepare
  restore_preprepare-AreUnvoted s seq none u = ok-AreUnvoted s u
  restore_preprepare-AreUnvoted s seq (some pp) u = elim (Bool-cases (ltb seq pp.seq.seq)) [
    | inl e ↦ rw e (restore_batch-AreUnvoted pp.seq pp.batch t (viewed-Unvoted s pp.seq.view u))
    | inr e ↦ rw e (ok-AreUnvoted t (viewed-Unvoted s pp.seq.view u))
  ]
    where
      t : Sbft
      t = record s { view = pp.seq.view }

  activate_first-cur :
      (s : Sbft) (seq : ℕ)
      → s.world.stored_commit ≡ none
      → ((Replica.activate_first sys s seq).cur ≡ s.cur)
        × ((Replica.activate_first sys s seq).config ≡ s.config)
  unfolding Replica.activate_first Replica.restore_votes Replica.commit_read
      State.cancel_view_change_timer State.cancel
  activate_first-cur s seq e = ground arith

  blank-Unvoted :
      (id : ℕ) (w : World) → w.stored_commit ≡ none → Unvoted sys c (Replica.blank sys id c w)
  unfolding Unvoted Replica.blank
  blank-Unvoted id w e = (refl, e, blank-IsVoted sys id c w)

  activated-IsVoted :
      (s : Sbft) (seq : ℕ)
      → Unvoted sys c s
      → IsVoted sys (Replica.activate_first sys s seq).config (Replica.activate_first sys s seq).cur
  unfolding Unvoted
  activated-IsVoted s seq (g, e, v) = let (p, q) = activate_first-cur s seq e in rw (p, q, g) v

  restored-IsVoted :
      (s t u : Sbft) (seq : ℕ) (o : Option Preprepare)
      → Unvoted sys c s
      → Replica.restore_preprepare sys o s seq ≡ ok t
      → ◌≡◌ {A = Result Crash Sbft} (ok (Replica.activate_first sys t seq)) (ok u)
      → IsVoted sys u.config u.cur
  unfolding AreUnvoted
  restored-IsVoted s t u seq o h e q =
      let p : Replica.activate_first sys t seq ≡ u = cc q in
      subst (λ x. IsVoted sys x.config x.cur) p
        (activated-IsVoted t seq (restore_preprepare-AreUnvoted s seq o h t e))

  pub start-IsVoted :
      (id : ℕ) (w : World) (s : Sbft)
      → w.stored_commit ≡ none
      → Replica.start sys id c w ≡ ok s
      → IsVoted sys s.config s.cur
  unfolding Replica.start
  start-IsVoted id w s absent e =
      let (seq, p, q) = bind_ok (State.last_seq sys (Replica.blank sys id c w)) _ s e in
      let (t, p', q') =
        bind_ok (Replica.restore_preprepare sys w.stored_preprepare (Replica.blank sys id c w) seq)
          _ s q in
      restored-IsVoted (Replica.blank sys id c w) t s seq w.stored_preprepare
        (blank-Unvoted id w absent) p' q'
