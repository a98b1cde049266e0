-- ===== src/Orderer/Sbft/Views.antt =====
-- orderer/sbft/simplebft: viewchange.go and newview.go.
use fabric.Base.{
  ℕ, suc, ltb, Bool, true, false, if◌then◌else◌, ◌==◌, nat_eq, list_eq, option_eq, is_none, Option,
  none, some, List, [], ◌∷◌, Result, ok, err, ◌>>=◌,
}
use fabric.Base.Assoc.{Assoc}
use fabric.Base.Proc.{resume, ◌>>◌}
use fabric.Orderer.Sbft.Messages.{Batch, Subject, subject_eq, ViewChange, Signed, NewView, Msg}
use fabric.Orderer.Sbft.System.{
  System, Crash, BatchError, decode_header, check_batch, sign_view_change, check_view_change,
}
use fabric.Orderer.Sbft.Xset.{make_xset}
use fabric.Orderer.Sbft.State.{
  Sbft, ReplicaInfo, Method, done, crash, primary_id, next_view, broadcast, cancel,
  cancel_view_change_timer, replica, last_seq, deliver_batch,
}
use fabric.Orderer.Sbft.Phases.{handle_checked_preprepare, maybe_send_next_batch}
use fabric.Orderer.Sbft.Backlog.{discard_backlog, process_backlog}

-- the replicas forget the view changes for views below `view`
unfoldable pub forget_old : ℕ → List ReplicaInfo → List ReplicaInfo
forget_old view [] = []
forget_old view (r ∷ rs) = elim r.viewchange [
  | none ↦ r ∷ forget_old view rs
  | some vc ↦ (if ltb vc.view view then record r { viewchange = none } else r) ∷ forget_old view rs
]

-- the number of view changes, and the lowest of their views and `low`
unfoldable pub view_quorum : ℕ → List ReplicaInfo → ℕ × ℕ
view_quorum low [] = (0, low)
view_quorum low (r ∷ rs) = elim r.viewchange [
  | none ↦ view_quorum low rs
  | some vc ↦
      let (quorum, least) = view_quorum (if ltb vc.view low then vc.view else low) rs in
      (suc quorum, least)
]

unfoldable pub with_signed : ℕ → Option Signed → Assoc ℕ Signed → Assoc ℕ Signed
with_signed src none vset = vset
with_signed src (some svc) vset = (src, svc) ∷ vset

-- The view changes for a view, by the replicas from `src` on: `vset` and `vcs`. A replica has its
-- signed view change whenever it has the view change.
unfoldable pub collect : ℕ → ℕ → List ReplicaInfo → Assoc ℕ Signed × List ViewChange
unfolding with_signed
collect view src [] = ([], [])
collect view src (r ∷ rs) = elim r.viewchange [
  | none ↦ collect view (suc src) rs
  | some vc ↦
      let (vset, vcs) = collect view (suc src) rs in
      if vc.view == view then (with_signed src r.signed_viewchange vset, vc ∷ vcs) else (vset, vcs)
]

module _ (sys : System) where
  -- `checkSig`, `checkBatch` and the test of the view, for one view change
  unfoldable pub check_vote : Sbft → ℕ → ℕ → Signed → Result BatchError ViewChange
  check_vote s view src svc = do
    vc ← check_view_change sys svc src
    h ← check_batch sys s.config vc.checkpoint false true
    if vc.view == view then ok vc else err BatchError.wrong_view

  unfoldable pub check_votes : Sbft → ℕ → Assoc ℕ Signed → Result BatchError (List ViewChange)
  unfolding check_vote
  check_votes s view [] = ok []
  check_votes s view ((src, svc) ∷ vset) = do
    vc ← check_vote s view src svc
    vcs ← check_votes s view vset
    ok (vc ∷ vcs)

  unfoldable pub check_new_view_signatures : Sbft → NewView → Result BatchError (List ViewChange)
  unfolding check_votes
  check_new_view_signatures s nv = check_votes s nv.view nv.vset

  -- the best checkpoint; the code panics where the votes are not enough
  unfoldable pub confirmed : Option (Option Subject × Batch) → Result Crash Batch
  confirmed none = err Crash.invalid_new_view
  confirmed (some (xset, prev)) = ok prev

  unfoldable pub vouched_by : Sbft → Result BatchError (List ViewChange) → Result Crash Batch
  unfolding make_xset confirmed
  vouched_by s (err e) = err Crash.invalid_new_view
  vouched_by s (ok vcs) = make_xset sys s.config s.view vcs >>= confirmed

  unfoldable pub vouched : Sbft → NewView → Result Crash Batch
  unfolding check_new_view_signatures vouched_by
  vouched s nv = vouched_by s (check_new_view_signatures s nv)

  -- the payloads of the batch in flight, if the numbers agree
  unfoldable pub fill : Batch → Bool → Option Batch → Result Crash Batch
  fill prev false mine = ok prev
  fill prev true none = err Crash.nil_pointer
  fill prev true (some b) = ok record prev { payloads = b.payloads }

  unfoldable pub catch_up : Sbft → Batch → ℕ → ℕ → Result Crash (Option Batch)
  unfolding fill
  catch_up s prev mine theirs =
      if ltb mine theirs
      then fill prev (theirs == s.cur.subject.seq.seq) s.cur.preprep >>= (λ b. ok (some b))
      else ok none

  -- the batch to deliver, if any
  unfoldable pub missing_batch : Sbft → NewView → Result Crash (Option Batch)
  unfolding vouched catch_up last_seq
  missing_batch s nv = do
    prev ← vouched s nv
    mine ← last_seq sys s
    h ← decode_header sys prev
    catch_up s prev mine h.seq

  unfoldable pub deliver_missing : Option Batch → Method (Unit {0})
  unfolding deliver_batch
  deliver_missing none s = done s
  deliver_missing (some b) s =
      done (deliver_batch sys b record s { cur = record s.cur { checkpoint_done = true } })

  unfoldable pub maybe_deliver_using_xset : NewView → Method (Unit {0})
  unfolding missing_batch deliver_missing
  maybe_deliver_using_xset nv s = resume (missing_batch s nv, s) deliver_missing

  -- `s.cur.checkpointDone = true` and `s.cur.subject.Seq.Seq = 0`
  unfoldable pub acquiesce : Sbft → Sbft
  acquiesce s = record s {
    cur = record s.cur {
      checkpoint_done = true;
      subject = record s.cur.subject { seq = record s.cur.subject.seq { seq = 0 } };
    };
  }

  unfoldable pub start_view : Option Batch → Method (Unit {0})
  unfolding decode_header handle_checked_preprepare cancel_view_change_timer maybe_send_next_batch
  start_view none s = maybe_send_next_batch sys (cancel_view_change_timer s)
  start_view (some b) s =
      resume (decode_header sys b, s)
        λ h t. done (handle_checked_preprepare sys record { view = t.view; seq = h.seq } b t)

  unfoldable pub activate : NewView → Method (Unit {0})
  unfolding discard_backlog maybe_deliver_using_xset acquiesce start_view process_backlog
  activate nv s =
      (discard_backlog (primary_id s)
          >> maybe_deliver_using_xset nv
          >> (λ t. start_view nv.batch (acquiesce t))
          >> process_backlog sys)
        record s { active_view = true }

  unfoldable pub renew : Option NewView → Method (Unit {0})
  unfolding activate
  renew none s = done s
  renew (some nv) s = if nv.view == s.view then activate nv s else done s

  unfoldable pub process_new_view : Method (Unit {0})
  unfolding renew replica
  process_new_view s =
      if s.active_view then done s else resume (replica (primary_id s) s, s) λ r. renew r.newview

  -- viewchange.go
  unfoldable pub view_change_of : Sbft → ViewChange
  view_change_of s = record {
    view = s.view;
    pset = if s.cur.sent_commit then s.cur.subject ∷ [] else [];
    qset = if is_none s.cur.preprep then [] else s.cur.subject ∷ [];
    checkpoint = record s.world.last_batch { payloads = [] };
  }

  -- The steps before `processNewView`.
  unfoldable pub leave_view : Sbft → Sbft
  unfolding view_change_of cancel forget_old broadcast sign_view_change
  leave_view s =
      let u = cancel s.cur.timeout s in
      let t = record u {
        view = next_view s;
        active_view = false;
        replica_state = forget_old (next_view s) u.replica_state;
      } in
      let svc = sign_view_change sys (view_change_of t) in
      broadcast (Msg.view_change svc) (cancel t.cur.timeout (cancel t.view_change_timer t))

  unfoldable pub send_view_change : Method (Unit {0})
  unfolding leave_view process_new_view
  send_view_change s = process_new_view (leave_view s)

  -- newview.go
  unfoldable pub announce : NewView → Sbft → Sbft
  unfolding broadcast
  announce nv s = broadcast (Msg.new_view nv) record s { last_new_view_sent = some nv }

  unfoldable pub new_view_of : Sbft → Assoc ℕ Signed → Option Subject → Option Batch → NewView
  new_view_of s vset xset batch = record { view = s.view; vset = vset; xset = xset; batch = batch }

  unfoldable pub announce_batch : Assoc ℕ Signed → Subject → Option Batch → Method (Unit {0})
  unfolding announce new_view_of
  announce_batch vset x none s = crash Crash.nil_pointer s
  announce_batch vset x (some b) s = done (announce (new_view_of s vset (some x) (some b)) s)

  -- Only the batch at hand is proposed again; for another subject the code sends no xset.
  unfoldable pub choose : Assoc ℕ Signed → Option (Option Subject × Batch) → Method (Unit {0})
  unfolding announce new_view_of announce_batch
  choose vset none s = done s
  choose vset (some (none, prev)) s = done (announce (new_view_of s vset none none) s)
  choose vset (some (some x, prev)) s =
      if s.cur.subject.digest == x.digest
      then announce_batch vset x s.cur.preprep s
      else done (announce (new_view_of s vset none none) s)

  unfoldable pub already_sent : Sbft → Bool
  already_sent s = elim s.last_new_view_sent [ none ↦ false | some nv ↦ nv.view == s.view ]

  unfoldable pub maybe_send_new_view : Method (Unit {0})
  unfolding already_sent collect make_xset choose
  maybe_send_new_view s =
      let votes = collect s.view 0 s.replica_state in
      if already_sent s
      then done s
      else resume (make_xset sys s.config s.view votes.1, s) (choose votes.0)
