-- ===== src/Orderer/Sbft/Changes.antt =====
-- orderer/sbft/simplebft: `handleNewView` of newview.go and `handleViewChange` of viewchange.go.
use fabric.Base.{
  ℕ, ◌-◌, ltb, leb, Bool, true, false, if◌then◌else◌, not, ◌&&◌, ◌==◌, nat_eq, list_eq, option_eq,
  is_none, Option, none, some, List, Result, ok, err, ◌>>=◌,
}
use fabric.Base.Proc.{resume}
use fabric.Orderer.Sbft.Messages.{
  Batch, Subject, subject_eq, ViewChange, Signed, NewView, BatchHeader,
}
use fabric.Orderer.Sbft.System.{
  System, Crash, BatchError, no_faulty_quorum, one_correct_quorum, batch_hash, check_batch,
  check_view_change,
}
use fabric.Orderer.Sbft.Xset.{make_xset}
use fabric.Orderer.Sbft.State.{
  Sbft, ReplicaInfo, Callback, Method, done, primary_id_view, is_primary, arm, replica, put_replica,
}
use fabric.Orderer.Sbft.Views.{
  view_quorum, check_new_view_signatures, process_new_view, send_view_change, maybe_send_new_view,
}

module _ (sys : System) where
  -- The tests of `nv.Xset` and `nv.Batch`: whether they pass. Where the batch is missing, the
  -- message that the code logs reads it.
  unfoldable pub check_xset : NewView → Option Subject → Result Crash Bool
  check_xset nv found = if not (nv.xset == found) then ok false else elim nv.xset [
    | none ↦ ok (is_none nv.batch)
    | some x ↦ elim nv.batch [
      | none ↦ err Crash.nil_pointer
      | some b ↦ ok (batch_hash sys b == x.digest)
    ]
  ]

  unfoldable pub check_new_batch : Sbft → Option Batch → Bool
  unfolding check_batch
  check_new_batch s none = true
  check_new_batch s (some b) = elim (check_batch sys s.config b true false) [
    | err e ↦ false
    | ok h ↦ true
  ]

  unfoldable pub check_found : NewView → Option (Option Subject × Batch) → Result Crash Bool
  unfolding check_xset
  check_found nv none = ok false
  check_found nv (some (found, prev)) = check_xset nv found

  unfoldable pub judge : NewView → Sbft → Result BatchError (List ViewChange) → Result Crash Bool
  unfolding make_xset check_found check_new_batch
  judge nv s (err e) = ok false
  judge nv s (ok vcs) = do
    found ← make_xset sys s.config s.view vcs
    good ← check_found nv found
    ok (good && check_new_batch s nv.batch)

  -- Whether the new view is accepted. The view for the xset is the replica's.
  unfoldable pub check_new_view : NewView → Sbft → Result Crash Bool
  unfolding check_new_view_signatures judge
  check_new_view nv s = judge nv s (check_new_view_signatures sys s nv)

  unfoldable pub enter_view : NewView → Sbft → Sbft
  enter_view nv s =
      if ltb s.view nv.view then record s { view = nv.view; active_view = false } else s

  unfoldable pub adopt : NewView → ReplicaInfo → Bool → Method (Unit {0})
  unfolding put_replica send_view_change enter_view process_new_view
  adopt nv r false s = send_view_change sys s
  adopt nv r true s =
      process_new_view sys
        (enter_view nv (put_replica (primary_id_view s nv.view) record r { newview = some nv } s))

  unfoldable pub is_duplicate : NewView → Option NewView → Bool
  is_duplicate nv none = false
  is_duplicate nv (some old) = leb nv.view old.view

  unfoldable pub handle_new_view : NewView → ℕ → Method (Unit {0})
  unfolding is_duplicate adopt check_new_view replica
  handle_new_view nv src s =
      if not (src == primary_id_view s nv.view)
      then done s
      else resume (replica src s, s)
          λ r t.
            if is_duplicate nv r.newview
            then done t
            else resume (check_new_view nv t, t) (adopt nv r)

  -- viewchange.go, after the view change is stored
  unfoldable pub await_new_view : ℕ → Sbft → Sbft
  unfolding arm
  await_new_view quorum s =
      if quorum == no_faulty_quorum s.config
      then record (arm s.view_change_timeout Callback.view_change_timed_out s) {
        view_change_timer = some s.world.next_timer;
      }
      else s

  unfoldable pub count_votes : ViewChange → Method (Unit {0})
  unfolding view_quorum send_view_change await_new_view maybe_send_new_view
  count_votes vc s =
      let votes = view_quorum vc.view s.replica_state in
      let t = await_new_view votes.0 s in
      if votes.0 == one_correct_quorum s.config && ltb s.view votes.1
      then send_view_change sys record s { view = votes.1 - 1 }
      else if is_primary t
      then maybe_send_new_view sys t
      else done t

  unfoldable pub is_old_change : ViewChange → Option ViewChange → Bool
  is_old_change vc none = false
  is_old_change vc (some old) = leb vc.view old.view

  unfoldable pub store_vote : Signed → ℕ → ViewChange → Method (Unit {0})
  unfolding is_old_change put_replica count_votes replica
  store_vote svc src vc s =
      if ltb vc.view s.view
      then done s
      else resume (replica src s, s)
          λ r t.
            if is_old_change vc r.viewchange
            then done t
            else count_votes vc
                (put_replica src record r { viewchange = some vc; signed_viewchange = some svc } t)

  unfoldable pub store_checked :
      Signed → ℕ → ViewChange → Result BatchError BatchHeader → Method (Unit {0})
  unfolding store_vote
  store_checked svc src vc (err e) s = done s
  store_checked svc src vc (ok h) s = store_vote svc src vc s

  unfoldable pub check_and_store : Signed → ℕ → Result BatchError ViewChange → Method (Unit {0})
  unfolding check_batch store_checked
  check_and_store svc src (err e) s = done s
  check_and_store svc src (ok vc) s =
      store_checked svc src vc (check_batch sys s.config vc.checkpoint false true) s

  unfoldable pub handle_view_change : Signed → ℕ → Method (Unit {0})
  unfolding check_view_change check_and_store
  handle_view_change svc src = check_and_store svc src (check_view_change sys svc src)
