-- ===== src/Orderer/Sbft/Certificates/Reach.antt =====
-- orderer/sbft/simplebft: the votes after any events.
use fabric.Base.{
  ℕ, ◌≡◌, refl, Bool-cases, inl, inr, ltb, sym, ◌∙◌, Option, none, some, List, [], ◌∷◌, ◌++◌,
  length, Result, ok, err, arith, get_elem?, nat_eq, Bytes, ◌==◌,
}
use fabric.Base.Proc.{resume}
use fabric.Orderer.Sbft.Messages.{Config, Msg}
use fabric.Orderer.Sbft.System.{System, Crash}
use fabric.Orderer.Sbft.State
use fabric.Orderer.Sbft.State.{Sbft, ReqInfo, ReplicaInfo, World, entries}
use fabric.Orderer.Sbft.Backlog
use fabric.Orderer.Sbft.Backlog.{waiting}
use fabric.Orderer.Sbft.Replica
use fabric.Orderer.Sbft.Frame.{Frame, Keeps}
use fabric.Orderer.Sbft.Frame.Connection.{connection-Keeps}
use fabric.Orderer.Sbft.Frame.Replica.{receive-Keeps, fire-Keeps}
use fabric.Orderer.Sbft.Backlogs.{Waits, Waits-frame}
use fabric.Orderer.Sbft.Backlogs.Short.{record_backlog_msg-StayShort}
use fabric.Orderer.Sbft.Certificates.{
  IsVoted, vote_prepare-IsVoted, vote_commit-IsVoted, vote_checkpoint-IsVoted, send_commit-IsVoted,
  execute-IsVoted, complete-IsVoted, acquiesce-IsVoted, fresh_cur-IsVoted,
}
use fabric.Orderer.Sbft.Certificates.Start.{start-IsVoted}

abbrev Votes : System → Sbft → Sbft → Type 0
Votes sys s t =
    Waits s t × (s.config ≡ t.config) × (IsVoted sys s.config s.cur → IsVoted sys t.config t.cur)

put-config : (s : Sbft) (i : ℕ) (q : ReplicaInfo) → s.config ≡ (State.put_replica i q s).config
unfolding State.put_replica
put-config s i q = refl

put-IsVoted :
    (sys : System) (s : Sbft) (i : ℕ) (q : ReplicaInfo)
    → IsVoted sys s.config s.cur
    → IsVoted sys (State.put_replica i q s).config (State.put_replica i q s).cur
unfolding State.put_replica
put-IsVoted sys s i q v = v

Votes-frame : (sys : System) → Frame sys (Votes sys)
Votes-frame sys = record {
  start = λ s. (W.start s, refl, λ v. v);
  trans = λ s t u h k. (W.trans s t u h.0 k.0, h.1 ∙ k.1, λ v. k.2 (h.2 v));
  less = λ s t h. h.0;
  same = λ s t c g e. (W.same s t c g e, sym g, λ v. rw (c, g) v);
  accept =
      λ s seq d o b. (W.accept s seq d o b, refl, λ v. fresh_cur-IsVoted sys s.config seq d o b);
  vote_prepare = λ s p src m e l q. (
    W.vote_prepare s p src m e l q,
    refl,
    λ v. vote_prepare-IsVoted sys s.config s.cur v p src m e q,
  );
  vote_commit = λ s p src m e l q. (
    W.vote_commit s p src m e l q,
    refl,
    λ v. vote_commit-IsVoted sys s.config s.cur v p src m e q,
  );
  vote_checkpoint = λ s k src m e g q. (
    W.vote_checkpoint s k src m e g q,
    refl,
    λ v. vote_checkpoint-IsVoted sys s.config s.cur v k src m e g q,
  );
  send_commit = λ s h. (W.send_commit s h, refl, λ v. send_commit-IsVoted sys s.config s.cur v h);
  execute = λ s h. (W.execute s h, refl, λ v. execute-IsVoted sys s.config s.cur v h);
  complete = λ s. (W.complete s, refl, λ v. complete-IsVoted sys s.config s.cur v);
  acquiesce = λ s. (W.acquiesce s, refl, λ v. acquiesce-IsVoted sys s.config s.cur v);
  put = λ s i r q e h. (W.put s i r q e h, put-config s i q, λ v. put-IsVoted sys s i q v);
  forget = λ s v. (W.forget s v, refl, λ h. h);
}
  where
    W : Frame sys Waits
    W = Waits-frame sys

abbrev Still : Sbft → Sbft → Type 0
Still s t = (t.cur ≡ s.cur) × (t.config ≡ s.config)

put_backlog-Still :
    (src : ℕ) (ms : List Msg) (s : Sbft) (o : Option ReplicaInfo)
    → Still s (Backlog.put_backlog src ms s o)
unfolding Backlog.put_backlog State.put_replica
put_backlog-Still src ms s none = (refl, refl)
put_backlog-Still src ms s (some r) = (refl, refl)

set_backlog-Still : (src : ℕ) (ms : List Msg) (s : Sbft) → Still s (Backlog.set_backlog src ms s)
unfolding Backlog.set_backlog
set_backlog-Still src ms s = put_backlog-Still src ms s (get_elem? s.replica_state src)

replica_discard-Still :
    (src : ℕ) (s : Sbft) (o : Result Crash ReplicaInfo)
    → Still s
        (resume
          (resume (o, s) λ r t. State.done (Backlog.set_backlog src [] t))
          (λ a. Backlog.reconnect src)).1
unfolding Backlog.reconnect
replica_discard-Still src s (ok r) = set_backlog-Still src [] s
replica_discard-Still src s (err e) = (refl, refl)

append_backlog-Still :
    (m : Msg) (src : ℕ) (r : ReplicaInfo) (s : Sbft) → Still s (Backlog.append_backlog m src r s).1
unfolding Backlog.append_backlog Backlog.discard_backlog
append_backlog-Still m src r s = elim (Bool-cases (ltb Backlog.max_backlog (length ms))) [
  | inl q ↦ rw q (
      let (p, g) = replica_discard-Still src u (State.replica src u) in
      let (p', g') = set_backlog-Still src ms s in (p ∙ p', g ∙ g'))
  | inr q ↦ rw q (set_backlog-Still src ms s)
]
  where
    ms : List Msg
    ms = r.back_log ++ (m ∷ [])

    u : Sbft
    u = Backlog.set_backlog src ms s

replica_append-Still :
    (m : Msg) (src : ℕ) (s : Sbft) (o : Result Crash ReplicaInfo)
    → Still s (resume (o, s) (Backlog.append_backlog m src)).1
replica_append-Still m src s (ok r) = append_backlog-Still m src r s
replica_append-Still m src s (err e) = (refl, refl)

record_backlog_msg-Still :
    (m : Msg) (src : ℕ) (s : Sbft) → Still s (Backlog.record_backlog_msg m src s).1
unfolding Backlog.record_backlog_msg
record_backlog_msg-Still m src s = elim (Bool-cases (src == s.id)) [
  | inl q ↦ rw q (refl, refl)
  | inr q ↦ rw q (replica_append-Still m src s (State.replica src s))
]

module _ (sys : System) where
  -- What every step keeps.
  abbrev StayVoted : Sbft → Sbft → Type 0
  StayVoted s t = IsVoted sys s.config s.cur → IsVoted sys t.config t.cur

  record-StayVoted :
      (m : Msg) (src : ℕ) (s : Sbft) → Keeps StayVoted s (Backlog.record_backlog_msg m src s)
  record-StayVoted m src s = record {
    stops = (record_backlog_msg-StayShort m src s).stops;
    holds = λ v. let (p, g) = record_backlog_msg-Still m src s in rw (p, g) v;
  }

  asks-StayVoted : (req : Bytes) (s : Sbft) → StayVoted s (Replica.propose_request sys req s)
  unfolding Replica.propose_request State.broadcast
  asks-StayVoted req s v = v

  step-StayVoted : (e : Replica.Event) (s : Sbft) → StayVoted s (Replica.step sys e s).1
  unfolding Replica.step
  step-StayVoted (Replica.Event.arrives m src) s =
      (receive-Keeps (Votes-frame sys) (λ (t u : Sbft) h. h.2) record-StayVoted m src s).holds
  step-StayVoted (Replica.Event.goes_off t) s = (fire-Keeps (Votes-frame sys) t s).holds.2
  step-StayVoted (Replica.Event.connects dest) s =
      (connection-Keeps (Votes-frame sys) dest s).holds.2
  step-StayVoted (Replica.Event.asks req) s = asks-StayVoted req s

  Reach-StayVoted : (s t : Sbft) → Replica.Reach sys s t → StayVoted s t
  Reach-StayVoted s t Replica.Reach.here v = v
  Reach-StayVoted s t (Replica.Reach.next {t = u} e r q) v =
      step-StayVoted e u (Reach-StayVoted s u r v)

  new_sbft-start :
      (c : Config) (id : ℕ) (w : World) (s : Sbft)
      → Replica.new_sbft sys id c w ≡ some (ok s)
      → Replica.start sys id c w ≡ ok s
  unfolding Replica.new_sbft
  new_sbft-start c id w s e = ground arith

  -- Take a replica that was made by `New` from a store without a commit, and any events that it
  -- survives. For each kind of vote it holds at most one from a replica; unless a new view has set
  -- its number to 0, the prepares and the commits are for its current subject and the checkpoints
  -- for its number; every checkpoint bears a valid signature; if it has accepted a batch and sent a
  -- commit, it holds n-f-1 prepares, and if it has executed the batch, n-f commits.
  pub Reach-IsVoted :
      (c : Config) (id : ℕ) (w : World) (s t : Sbft)
      → w.stored_commit ≡ none
      → Replica.new_sbft sys id c w ≡ some (ok s)
      → Replica.Reach sys s t
      → IsVoted sys t.config t.cur
  Reach-IsVoted c id w s t absent e r =
      Reach-StayVoted s t r (start-IsVoted sys c id w s absent (new_sbft-start c id w s e))
