-- ===== src/Orderer/Sbft/Backlogs/Short.antt =====
-- orderer/sbft/simplebft/backlog.go: the bound on the messages that wait.
use fabric.Base.{
  ℕ, zero, suc, ◌≤◌, ◌≡◌, ◌≢◌, refl, ap, subst, Bool-cases, inl, inr, some, List, [], ◌∷◌, ◌++◌,
  length, All, Result, ok, err, arith, get_elem?, ltb, ◌==◌, nat_eq,
}
use fabric.Base.Proc.{resume}
use fabric.Orderer.Sbft.Messages.{Msg}
use fabric.Orderer.Sbft.System.{System, Crash}
use fabric.Orderer.Sbft.State
use fabric.Orderer.Sbft.State.{Sbft, ReplicaInfo}
use fabric.Orderer.Sbft.Backlog
use fabric.Orderer.Sbft.Backlog.{waiting, max_backlog}
use fabric.Orderer.Sbft.Views.{forget_old}
use fabric.Orderer.Sbft.Replica
use fabric.Orderer.Sbft.Frame.{Frame, Keeps}
use fabric.Orderer.Sbft.Frame.Loop.{replica-some, replica-stops}
use fabric.Orderer.Sbft.Frame.Replica.{receive-Keeps}
use fabric.Orderer.Sbft.Backlogs.{Waits, forget_old-waiting, put_replica-Waits}

abbrev pub IsShort : ReplicaInfo → Type 0
IsShort r = length r.back_log ≤ max_backlog

-- no backlog has more than `max_backlog` messages
abbrev pub AreShort : Sbft → Type 0
AreShort s = All IsShort s.replica_state

forget_old-AreShort :
    (v : ℕ) (rs : List ReplicaInfo) → All IsShort rs → All IsShort (forget_old v rs)
unfolding forget_old
forget_old-AreShort v [] h = tt
forget_old-AreShort v (r ∷ rs) h = ground (arith, forget_old-AreShort v rs)

set_at-AreShort :
    (i : ℕ) (q : ReplicaInfo) (rs : List ReplicaInfo)
    → IsShort q
    → All IsShort rs
    → All IsShort (State.set_at i q rs)
unfolding State.set_at
set_at-AreShort i q [] hq h = tt
set_at-AreShort zero q (r ∷ rs) hq (hr, h) = (hq, h)
set_at-AreShort (suc i) q (r ∷ rs) hq (hr, h) = (hr, set_at-AreShort i q rs hq h)

-- The second assignment hides the first.
set_at_twice :
    (i : ℕ) (p q : ReplicaInfo) (rs : List ReplicaInfo)
    → State.set_at i q (State.set_at i p rs) ≡ State.set_at i q rs
unfolding State.set_at
set_at_twice i p q [] = refl
set_at_twice zero p q (r ∷ rs) = refl
set_at_twice (suc i) p q (r ∷ rs) = ap (λ t. r ∷ t) (set_at_twice i p q rs)

get_elem?-IsShort :
    (i : ℕ) (r : ReplicaInfo) (rs : List ReplicaInfo)
    → get_elem? rs i ≡ some r
    → All IsShort rs
    → IsShort r
get_elem?-IsShort i r [] e h = cc e
get_elem?-IsShort zero r (x ∷ rs) e (hx, h) = let p : x ≡ r = cc e in subst IsShort p hx
get_elem?-IsShort (suc i) r (x ∷ rs) e (hx, h) = get_elem?-IsShort i r rs e h

get-set_at :
    (i : ℕ) (q r : ReplicaInfo) (rs : List ReplicaInfo)
    → get_elem? rs i ≡ some r
    → get_elem? (State.set_at i q rs) i ≡ some q
unfolding State.set_at
get-set_at i q r [] e = cc e
get-set_at zero q r (x ∷ rs) e = refl
get-set_at (suc i) q r (x ∷ rs) e = get-set_at i q r rs e

-- What the handlers keep.
abbrev Shortens : Sbft → Sbft → Type 0
Shortens s t = Waits s t × (AreShort s → AreShort t)

put_replica-Shortens :
    (s : Sbft) (i : ℕ) (r q : ReplicaInfo)
    → get_elem? s.replica_state i ≡ some r
    → length q.back_log ≤ length r.back_log
    → Shortens s (State.put_replica i q s)
unfolding State.put_replica
put_replica-Shortens s i r q e h = (
  put_replica-Waits s i r q e h,
  λ a.
      set_at-AreShort i q s.replica_state
        (omega (arith, h, get_elem?-IsShort i r s.replica_state e a)) a,
)

Shortens-frame : (sys : System) → Frame sys Shortens
Shortens-frame sys = record {
  start = λ s. (omega arith, λ a. a);
  trans = λ s t u h k. (omega (arith, h.0, k.0), λ a. k.1 (h.1 a));
  less = λ s t h. h.0;
  same = λ s t c g e. (omega (arith, ap waiting e), λ a. rw e a);
  accept = λ s seq d o b. (omega arith, λ a. a);
  vote_prepare = λ s p src m e l q. (omega arith, λ a. a);
  vote_commit = λ s p src m e l q. (omega arith, λ a. a);
  vote_checkpoint = λ s p src m e l q. (omega arith, λ a. a);
  send_commit = λ s h. (omega arith, λ a. a);
  execute = λ s h. (omega arith, λ a. a);
  complete = λ s. (omega arith, λ a. a);
  acquiesce = λ s. (omega arith, λ a. a);
  put = put_replica-Shortens;
  forget = λ s v.
      (omega (arith, forget_old-waiting v s.replica_state), forget_old-AreShort v s.replica_state);
}

abbrev pub StayShort : Sbft → Sbft → Type 0
StayShort s t = AreShort s → AreShort t

pub replica_ok :
    (i : ℕ) (r : ReplicaInfo) (s : Sbft)
    → get_elem? s.replica_state i ≡ some r
    → State.replica i s ≡ ok r
unfolding State.replica
replica_ok i r s e = ground arith

set_backlog-some :
    (src : ℕ) (ms : List Msg) (r : ReplicaInfo) (s : Sbft)
    → get_elem? s.replica_state src ≡ some r
    → Backlog.set_backlog src ms s ≡ State.put_replica src record r { back_log = ms } s
unfolding Backlog.set_backlog Backlog.put_backlog
set_backlog-some src ms r s e = ap (Backlog.put_backlog src ms s) e

put_twice-AreShort :
    (src : ℕ) (p q : ReplicaInfo) (s : Sbft)
    → IsShort q
    → AreShort s
    → AreShort (State.put_replica src q (State.put_replica src p s))
unfolding State.put_replica
put_twice-AreShort src p q s hq a =
    rw (set_at_twice src p q s.replica_state) (set_at-AreShort src q s.replica_state hq a)

put-get :
    (src : ℕ) (p r : ReplicaInfo) (s : Sbft)
    → get_elem? s.replica_state src ≡ some r
    → get_elem? (State.put_replica src p s).replica_state src ≡ some p
unfolding State.put_replica
put-get src p r s e = get-set_at src p r s.replica_state e

put-AreShort :
    (src : ℕ) (q : ReplicaInfo) (s : Sbft)
    → IsShort q
    → AreShort s
    → AreShort (State.put_replica src q s)
unfolding State.put_replica
put-AreShort src q s hq a = set_at-AreShort src q s.replica_state hq a

discard_some :
    (src : ℕ) (r : ReplicaInfo) (s : Sbft)
    → get_elem? s.replica_state src ≡ some r
    → Backlog.discard_backlog src s ≡ (ok tt, State.put_replica src record r { back_log = [] } s)
unfolding Backlog.discard_backlog
discard_some src r s e = rw (replica_ok src r s e, set_backlog-some src [] r s e) refl

full-StayShort :
    (src : ℕ) (p r : ReplicaInfo) (s : Sbft)
    → get_elem? s.replica_state src ≡ some r
    → Keeps StayShort s (
        resume
          (Backlog.discard_backlog src (State.put_replica src p s))
          (λ v. Backlog.reconnect src))
unfolding Backlog.reconnect
full-StayShort src p r s e =
    rw (discard_some src p (State.put_replica src p s) (put-get src p r s e)) record {
      stops = λ q. cc q;
      holds = put_twice-AreShort src p record p { back_log = [] } s (omega arith);
    }

append-StayShort :
    (m : Msg) (src : ℕ) (r : ReplicaInfo) (s : Sbft)
    → get_elem? s.replica_state src ≡ some r
    → Keeps StayShort s (Backlog.append_backlog m src r s)
unfolding Backlog.append_backlog
append-StayShort m src r s e =
    rw (set_backlog-some src ms r s e) (elim (Bool-cases (ltb max_backlog (length ms))) [
      | inl q ↦ rw q (full-StayShort src record r { back_log = ms } r s e)
      | inr q ↦ rw q record {
        stops = λ h. cc h;
        holds = put-AreShort src record r { back_log = ms } s (ground arith);
      }
    ])
  where
    ms : List Msg
    ms = r.back_log ++ (m ∷ [])

pub record_backlog_msg-StayShort :
    (m : Msg) (src : ℕ) (s : Sbft) → Keeps StayShort s (Backlog.record_backlog_msg m src s)
unfolding Backlog.record_backlog_msg
record_backlog_msg-StayShort m src s = elim (Bool-cases (src == s.id)) [
  | inl q ↦ rw q record { stops = λ h. cc h; holds = λ a. a }
  | inr q ↦ rw q (go (State.replica src s) refl)
]
  where
    go :
        (o : Result Crash ReplicaInfo)
        → State.replica src s ≡ o
        → Keeps StayShort s (resume (o, s) (Backlog.append_backlog m src))
    go (ok r) e = append-StayShort m src r s (replica-some src s r e)
    go (err c) e = record { stops = λ h. ground (arith, replica-stops src s); holds = λ a. a }

-- Whatever message arrives, from whatever replica, its handler ends, and if no backlog is longer
-- than twelve messages before, none is after.
pub receive-AreShort :
    (sys : System) (m : Msg) (src : ℕ) (s : Sbft)
    → AreShort s
    → ((Replica.receive sys m src s).0 ≢ err Crash.out_of_fuel)
      × AreShort (Replica.receive sys m src s).1
receive-AreShort sys m src s a =
    let k =
      receive-Keeps (Shortens-frame sys) (λ (u v : Sbft) h. h.1) record_backlog_msg-StayShort m src
        s in
    (k.stops, k.holds a)
