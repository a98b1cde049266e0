-- ===== src/Orderer/Sbft/Backlogs.antt =====
-- orderer/sbft/simplebft/backlog.go: the bound on the messages that wait, and the end of the loop.
pub mod Short
use fabric.Base.{
  ℕ, zero, suc, ◌≤◌, ◌≡◌, ◌≢◌, refl, ap, subst, Bool-cases, inl, inr, some, List, [], ◌∷◌, ◌++◌,
  length, All, Result, ok, err, arith, get_elem?, ltb, ◌==◌, nat_eq,
}
use fabric.Base.Proc.{resume}
use fabric.Orderer.Sbft.Messages.{Msg}
use fabric.Orderer.Sbft.System.{System, Crash}
use fabric.Orderer.Sbft.State
use fabric.Orderer.Sbft.State.{Sbft, ReplicaInfo}
use fabric.Orderer.Sbft.Backlog
use fabric.Orderer.Sbft.Backlog.{waiting, max_backlog}
use fabric.Orderer.Sbft.Views.{forget_old}
use fabric.Orderer.Sbft.Replica
use fabric.Orderer.Sbft.Frame.{Frame, Keeps}
use fabric.Orderer.Sbft.Frame.Loop.{
  replica-some, waiting-set_at, process_backlog-Keeps, replica-stops,
}
use fabric.Orderer.Sbft.Frame.Replica.{receive-Keeps}

pub forget_old-waiting : (v : ℕ) (rs : List ReplicaInfo) → waiting (forget_old v rs) ≡ waiting rs
unfolding waiting forget_old
forget_old-waiting v [] = refl
forget_old-waiting v (r ∷ rs) = ground (arith, forget_old-waiting v rs)

-- the messages that wait become no more
abbrev pub Waits : Sbft → Sbft → Type 0
Waits s t = waiting t.replica_state ≤ waiting s.replica_state

pub put_replica-Waits :
    (s : Sbft) (i : ℕ) (r q : ReplicaInfo)
    → get_elem? s.replica_state i ≡ some r
    → length q.back_log ≤ length r.back_log
    → Waits s (State.put_replica i q s)
unfolding State.put_replica
put_replica-Waits s i r q e h = omega (arith, waiting-set_at i q r s.replica_state e)

pub Waits-frame : (sys : System) → Frame sys Waits
Waits-frame sys = record {
  start = λ s. omega arith;
  trans = λ s t u h k. omega (arith, h, k);
  less = λ s t h. h;
  same = λ s t c g e. omega (arith, ap waiting e);
  accept = λ s seq d o b. omega arith;
  vote_prepare = λ s p src m e l q. omega arith;
  vote_commit = λ s p src m e l q. omega arith;
  vote_checkpoint = λ s p src m e l q. omega arith;
  send_commit = λ s h. omega arith;
  execute = λ s h. omega arith;
  complete = λ s. omega arith;
  acquiesce = λ s. omega arith;
  put = put_replica-Waits;
  forget = λ s v. omega (arith, forget_old-waiting v s.replica_state);
}

-- From any state, `processBacklog` ends: it has fuel for every round, nested ones included. The
-- messages that wait become no more.
pub process_backlog_returns :
    (sys : System) (s : Sbft) → Keeps Waits s (Backlog.process_backlog sys s)
process_backlog_returns sys s = process_backlog-Keeps (Waits-frame sys) s
