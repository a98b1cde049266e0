-- ===== src/Orderer/Sbft/Frame/Changes.antt =====
-- The frame of the messages about views.
use fabric.Base.{
  ℕ, ◌≡◌, ◌≢◌, refl, Bool, true, false, Bool-cases, inl, inr, Option, none, some, List, Result, ok,
  err, ◌==◌, nat_eq, arith, ltb, ◌&&◌, not, ◌-◌, sym, ==_iff, list_eq, if◌then◌else◌,
}
use fabric.Orderer.Sbft.Messages.{
  Batch, BatchHeader, Subject, subject_eq, ViewChange, Signed, NewView,
}
use fabric.Orderer.Sbft.System.{
  System, Crash, BatchError, check_batch, check_view_change, no_faulty_quorum, one_correct_quorum,
}
use fabric.Base.Assoc.{Assoc}
use fabric.Base.Proc.{resume}
use fabric.Orderer.Sbft.State
use fabric.Orderer.Sbft.State.{Sbft, Method, ReplicaInfo}
use fabric.Orderer.Sbft.Views
use fabric.Orderer.Sbft.Changes
use fabric.Orderer.Sbft.Frame.{Frame, Keeps, Keeps-ok, Keeps-err, Keeps-step, Keeps-if, Keeps-read}
use fabric.Orderer.Sbft.Frame.Votes.{broadcast-Keeps}
use fabric.Orderer.Sbft.Frame.Handlers.{not-false}
use fabric.Orderer.Sbft.Frame.Loop.{replica-stops, replica-some}
use fabric.Orderer.Sbft.Frame.Views.{
  bind-stops, make_xset-stops, process_new_view-Keeps, send_view_change-Keeps,
}

check_xset-stops :
    (sys : System) (nv : NewView) (o : Option Subject)
    → Changes.check_xset sys nv o ≢ err Crash.out_of_fuel
unfolding Changes.check_xset
check_xset-stops sys nv o = ground arith

check_found-stops :
    (sys : System) (nv : NewView) (o : Option (Option Subject × Batch))
    → Changes.check_found sys nv o ≢ err Crash.out_of_fuel
unfolding Changes.check_found
check_found-stops sys nv none = λ q. cc q
check_found-stops sys nv (some (x, b)) = check_xset-stops sys nv x

judge-stops :
    (sys : System) (nv : NewView) (s : Sbft) (r : Result BatchError (List ViewChange))
    → Changes.judge sys nv s r ≢ err Crash.out_of_fuel
unfolding Changes.judge
judge-stops sys nv s (err e) = λ q. cc q
judge-stops sys nv s (ok vcs) =
    bind-stops _ _ (make_xset-stops sys s vcs)
      λ found. bind-stops _ _ (check_found-stops sys nv found) λ good q. cc q

module _ {sys : System} {R : Sbft → Sbft → Type 0} (F : Frame sys R) where
  enter_view-Keeps : (nv : NewView) (s : Sbft) → R s (Changes.enter_view sys nv s)
  unfolding Changes.enter_view
  enter_view-Keeps nv s = elim (Bool-cases (ltb s.view nv.view)) [
    | inl e ↦ rw e (F.same s _ refl refl refl)
    | inr e ↦ rw e (F.start s)
  ]

  module _ (nv : NewView) (s : Sbft) (r : ReplicaInfo)
      (here : State.replica (State.primary_id_view s nv.view) s ≡ ok r) where
    adopt-Keeps : (good : Bool) → Keeps R s (Changes.adopt sys nv r good s)
    unfolding Changes.adopt
    adopt-Keeps false = send_view_change-Keeps F s
    adopt-Keeps true =
        Keeps-step F s u _
          (F.trans s t u (F.put s _ r _ (replica-some _ s r here) (omega arith))
            (enter_view-Keeps nv t))
          (process_new_view-Keeps F u)
      where
        t : Sbft
        t = State.put_replica (State.primary_id_view s nv.view) record r { newview = some nv } s

        u : Sbft
        u = Changes.enter_view sys nv t

  not_duplicate-Keeps :
      (nv : NewView) (s : Sbft) (r : ReplicaInfo) (stale : Bool)
      → State.replica (State.primary_id_view s nv.view) s ≡ ok r
      → Keeps R s (
          if stale
          then State.done s
          else resume (Changes.check_new_view sys nv s, s) (Changes.adopt sys nv r))
  unfolding Changes.check_new_view
  not_duplicate-Keeps nv s r stale here =
      Keeps-if F s stale _ _ (λ e. Keeps-ok F s s tt (F.start s))
        (λ e.
          Keeps-read F s _ _ (judge-stops sys nv s (Views.check_new_view_signatures sys s nv))
            λ good q. adopt-Keeps nv s r here good)

  pub handle_new_view-Keeps :
      (nv : NewView) (src : ℕ) (s : Sbft) → Keeps R s (Changes.handle_new_view sys nv src s)
  unfolding Changes.handle_new_view
  handle_new_view-Keeps nv src s =
      Keeps-if F s (not (src == State.primary_id_view s nv.view)) _ _
        (λ e. Keeps-ok F s s tt (F.start s))
        (λ e. Keeps-read F s (State.replica src s) _ (replica-stops src s) λ r here.
          not_duplicate-Keeps nv s r (Changes.is_duplicate sys nv r.newview)
            (rw (sym ((==_iff src (State.primary_id_view s nv.view)).0 (not-false _ e))) here))

  await_new_view-Keeps : (quorum : ℕ) (s : Sbft) → R s (Changes.await_new_view sys quorum s)
  unfolding Changes.await_new_view State.arm
  await_new_view-Keeps quorum s = elim (Bool-cases (quorum == no_faulty_quorum s.config)) [
    | inl e ↦ rw e (F.same s _ refl refl refl)
    | inr e ↦ rw e (F.start s)
  ]

  announce-Keeps : (nv : NewView) (s : Sbft) → Keeps R s (State.done (Views.announce sys nv s))
  unfolding Views.announce
  announce-Keeps nv s =
      Keeps-ok F s _ tt (F.trans s t _ (F.same s t refl refl refl) (broadcast-Keeps F _ t))
    where
      t : Sbft
      t = record s { last_new_view_sent = some nv }

  announce_batch-Keeps :
      (vset : Assoc ℕ Signed) (x : Subject) (o : Option Batch) (s : Sbft)
      → Keeps R s (Views.announce_batch sys vset x o s)
  unfolding Views.announce_batch
  announce_batch-Keeps vset x none s = Keeps-err F s s Crash.nil_pointer (λ h. cc h) (F.start s)
  announce_batch-Keeps vset x (some b) s = announce-Keeps _ s

  choose-Keeps :
      (vset : Assoc ℕ Signed) (o : Option (Option Subject × Batch)) (s : Sbft)
      → Keeps R s (Views.choose sys vset o s)
  unfolding Views.choose
  choose-Keeps vset none s = Keeps-ok F s s tt (F.start s)
  choose-Keeps vset (some (none, b)) s = announce-Keeps _ s
  choose-Keeps vset (some (some x, b)) s =
      Keeps-if F s (s.cur.subject.digest == x.digest) _ _
        (λ e. announce_batch-Keeps vset x s.cur.preprep s) (λ e. announce-Keeps _ s)

  maybe_send_new_view-Keeps : (s : Sbft) → Keeps R s (Views.maybe_send_new_view sys s)
  unfolding Views.maybe_send_new_view
  maybe_send_new_view-Keeps s =
      Keeps-if F s (Views.already_sent sys s) _ _ (λ e. Keeps-ok F s s tt (F.start s))
        (λ e. Keeps-read F s _ _ (make_xset-stops sys s votes.1) λ o q. choose-Keeps votes.0 o s)
    where
      votes : Assoc ℕ Signed × List ViewChange
      votes = Views.collect s.view 0 s.replica_state

  count_votes-Keeps : (vc : ViewChange) (s : Sbft) → Keeps R s (Changes.count_votes sys vc s)
  unfolding Changes.count_votes
  count_votes-Keeps vc s =
      Keeps-if F s (votes.0 == one_correct_quorum s.config && ltb s.view votes.1) _ _
        (λ e. Keeps-step F s u _ (F.same s u refl refl refl) (send_view_change-Keeps F u))
        (λ e. Keeps-step F s t _ (await_new_view-Keeps votes.0 s) (
          Keeps-if F t (State.is_primary t) _ _ (λ q. maybe_send_new_view-Keeps t)
            (λ q. Keeps-ok F t t tt (F.start t))))
    where
      votes : ℕ × ℕ
      votes = Views.view_quorum vc.view s.replica_state

      t : Sbft
      t = Changes.await_new_view sys votes.0 s

      u : Sbft
      u = record s { view = votes.1 - 1 }

  store_new-Keeps :
      (svc : Signed) (src : ℕ) (vc : ViewChange) (s : Sbft) (r : ReplicaInfo)
      → State.replica src s ≡ ok r
      → Keeps R s (
          Changes.count_votes sys vc (
            State.put_replica src
              record r { viewchange = some vc; signed_viewchange = some svc }
              s))
  store_new-Keeps svc src vc s r here =
      Keeps-step F s _ _ (F.put s src r _ (replica-some src s r here) (omega arith))
        (count_votes-Keeps vc _)

  store_vote-Keeps :
      (svc : Signed) (src : ℕ) (vc : ViewChange) (s : Sbft)
      → Keeps R s (Changes.store_vote sys svc src vc s)
  unfolding Changes.store_vote
  store_vote-Keeps svc src vc s =
      Keeps-if F s (ltb vc.view s.view) _ _ (λ e. Keeps-ok F s s tt (F.start s))
        (λ e. Keeps-read F s _ _ (replica-stops src s) λ r here.
          Keeps-if F s (Changes.is_old_change sys vc r.viewchange) _ _
            (λ q. Keeps-ok F s s tt (F.start s)) (λ q. store_new-Keeps svc src vc s r here))

  store_checked-Keeps :
      (svc : Signed) (src : ℕ) (vc : ViewChange) (r : Result BatchError BatchHeader) (s : Sbft)
      → Keeps R s (Changes.store_checked sys svc src vc r s)
  unfolding Changes.store_checked
  store_checked-Keeps svc src vc (err e) s = Keeps-ok F s s tt (F.start s)
  store_checked-Keeps svc src vc (ok h) s = store_vote-Keeps svc src vc s

  check_and_store-Keeps :
      (svc : Signed) (src : ℕ) (r : Result BatchError ViewChange) (s : Sbft)
      → Keeps R s (Changes.check_and_store sys svc src r s)
  unfolding Changes.check_and_store
  check_and_store-Keeps svc src (err e) s = Keeps-ok F s s tt (F.start s)
  check_and_store-Keeps svc src (ok vc) s =
      store_checked-Keeps svc src vc (check_batch sys s.config vc.checkpoint false true) s

  pub handle_view_change-Keeps :
      (svc : Signed) (src : ℕ) (s : Sbft) → Keeps R s (Changes.handle_view_change sys svc src s)
  unfolding Changes.handle_view_change
  handle_view_change-Keeps svc src s =
      check_and_store-Keeps svc src (check_view_change sys svc src) s
