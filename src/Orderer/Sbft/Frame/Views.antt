-- ===== src/Orderer/Sbft/Frame/Views.antt =====
-- The frame of the view changes.
use fabric.Base.{
  ℕ, ◌≢◌, refl, Bool, true, false, Bool-cases, inl, inr, Option, none, some, List, [], ◌∷◌, Result,
  ok, err, ◌==◌, nat_eq, list_eq, arith, ltb, ◌>>=◌,
}
use fabric.Orderer.Sbft.Messages.{Batch, Subject, ViewChange, NewView}
use fabric.Orderer.Sbft.System.{System, Crash, BatchError, decode_header}
use fabric.Orderer.Sbft.Xset
use fabric.Orderer.Sbft.State
use fabric.Orderer.Sbft.State.{Sbft, Method, ReplicaInfo}
use fabric.Orderer.Sbft.Views
use fabric.Orderer.Sbft.Frame.{
  Frame, Keeps, Keeps-ok, Keeps-step, Keeps-if, Keeps-resume, Keeps-read,
}
use fabric.Orderer.Sbft.Frame.Votes.{
  broadcast-Keeps, cancel-Keeps, deliver_batch-Keeps, cancel_view_change_timer-Keeps,
  handle_checked_preprepare-Keeps,
}
use fabric.Orderer.Sbft.Frame.Requests.{
  decode_header-stops, last_seq-stops, maybe_send_next_batch-Keeps,
}
use fabric.Orderer.Sbft.Frame.Loop.{replica-stops, discard-Keeps, process_backlog-Keeps}

pub bind-stops :
    {A B : Type 0} (r : Result Crash A) (f : A → Result Crash B)
    → r ≢ err Crash.out_of_fuel
    → ((a : A) → f a ≢ err Crash.out_of_fuel)
    → (r >>= f) ≢ err Crash.out_of_fuel
bind-stops (ok a) f h k = k a
bind-stops (err e) f h k = λ q. ground (arith, h)

number-stops : (sys : System) (vcs : List ViewChange) → Xset.number sys vcs ≢ err Crash.out_of_fuel
unfolding Xset.number
number-stops sys [] = λ q. cc q
number-stops sys (vc ∷ vcs) =
    bind-stops (decode_header sys vc.checkpoint) _ (decode_header-stops sys vc.checkpoint)
      λ h. bind-stops (Xset.number sys vcs) _ (number-stops sys vcs) λ rest q. cc q

pub make_xset-stops :
    (sys : System) (s : Sbft) (vcs : List ViewChange)
    → Xset.make_xset sys s.config s.view vcs ≢ err Crash.out_of_fuel
unfolding Xset.make_xset
make_xset-stops sys s vcs = bind-stops (Xset.number sys vcs) _ (number-stops sys vcs) λ vs q. cc q

confirmed-stops :
    (sys : System) (o : Option (Option Subject × Batch))
    → Views.confirmed sys o ≢ err Crash.out_of_fuel
unfolding Views.confirmed
confirmed-stops sys none = λ q. cc q
confirmed-stops sys (some (x, b)) = λ q. cc q

vouched_by-stops :
    (sys : System) (s : Sbft) (r : Result BatchError (List ViewChange))
    → Views.vouched_by sys s r ≢ err Crash.out_of_fuel
unfolding Views.vouched_by
vouched_by-stops sys s (err e) = λ q. cc q
vouched_by-stops sys s (ok vcs) = bind-stops _ _ (make_xset-stops sys s vcs) (confirmed-stops sys)

fill-stops :
    (sys : System) (prev : Batch) (b : Bool) (o : Option Batch)
    → Views.fill sys prev b o ≢ err Crash.out_of_fuel
unfolding Views.fill
fill-stops sys prev false o = λ q. cc q
fill-stops sys prev true none = λ q. cc q
fill-stops sys prev true (some b) = λ q. cc q

catch_up-stops :
    (sys : System) (s : Sbft) (prev : Batch) (mine theirs : ℕ)
    → Views.catch_up sys s prev mine theirs ≢ err Crash.out_of_fuel
unfolding Views.catch_up
catch_up-stops sys s prev mine theirs = elim (Bool-cases (ltb mine theirs)) [
  | inl e ↦ rw e (
      bind-stops _ _ (fill-stops sys prev (theirs == s.cur.subject.seq.seq) s.cur.preprep)
        λ b q. cc q)
  | inr e ↦ rw e λ q. cc q
]

missing_batch-stops :
    (sys : System) (s : Sbft) (nv : NewView) → Views.missing_batch sys s nv ≢ err Crash.out_of_fuel
unfolding Views.missing_batch Views.vouched
missing_batch-stops sys s nv =
    bind-stops _ _ (vouched_by-stops sys s (Views.check_new_view_signatures sys s nv)) λ prev.
      bind-stops _ _ (last_seq-stops sys s) λ mine.
        bind-stops _ _ (decode_header-stops sys prev) λ h. catch_up-stops sys s prev mine h.seq

module _ {sys : System} {R : Sbft → Sbft → Type 0} (F : Frame sys R) where
  deliver_missing-Keeps : (o : Option Batch) (s : Sbft) → Keeps R s (Views.deliver_missing sys o s)
  unfolding Views.deliver_missing
  deliver_missing-Keeps none s = Keeps-ok F s s tt (F.start s)
  deliver_missing-Keeps (some b) s =
      Keeps-ok F s _ tt (F.trans s _ _ (F.complete s) (deliver_batch-Keeps F b _))

  pub maybe_deliver_using_xset-Keeps :
      (nv : NewView) (s : Sbft) → Keeps R s (Views.maybe_deliver_using_xset sys nv s)
  unfolding Views.maybe_deliver_using_xset
  maybe_deliver_using_xset-Keeps nv s =
      Keeps-read F s _ _ (missing_batch-stops sys s nv) λ o e. deliver_missing-Keeps o s

  acquiesce-Keeps : (s : Sbft) → R s (Views.acquiesce sys s)
  unfolding Views.acquiesce
  acquiesce-Keeps s = F.trans s t _ (F.complete s) (F.acquiesce t)
    where
      t : Sbft
      t = record s { cur = record s.cur { checkpoint_done = true } }

  start_view-Keeps : (o : Option Batch) (s : Sbft) → Keeps R s (Views.start_view sys o s)
  unfolding Views.start_view
  start_view-Keeps none s =
      Keeps-step F s t _ (cancel_view_change_timer-Keeps F s) (maybe_send_next_batch-Keeps F t)
    where
      t : Sbft
      t = State.cancel_view_change_timer s
  start_view-Keeps (some b) s =
      Keeps-read F s _ _ (decode_header-stops sys b)
        λ h e. Keeps-ok F s _ tt (handle_checked_preprepare-Keeps F _ b s)

  activate-Keeps : (nv : NewView) (s : Sbft) → Keeps R s (Views.activate sys nv s)
  unfolding Views.activate
  activate-Keeps nv s = Keeps-step F s t _ (F.same s t refl refl refl) (
      Keeps-resume F t _ _
        (Keeps-resume F t _ _
          (Keeps-resume F t _ _ (discard-Keeps F (State.primary_id s) t)
            λ a u g. maybe_deliver_using_xset-Keeps nv u)
          λ a u g.
            Keeps-step F u (Views.acquiesce sys u) _ (acquiesce-Keeps u)
              (start_view-Keeps nv.batch (Views.acquiesce sys u)))
        λ a u g. process_backlog-Keeps F u)
    where
      t : Sbft
      t = record s { active_view = true }

  renew-Keeps : (o : Option NewView) (s : Sbft) → Keeps R s (Views.renew sys o s)
  unfolding Views.renew
  renew-Keeps none s = Keeps-ok F s s tt (F.start s)
  renew-Keeps (some nv) s =
      Keeps-if F s (nv.view == s.view) _ _ (λ e. activate-Keeps nv s)
        (λ e. Keeps-ok F s s tt (F.start s))

  pub process_new_view-Keeps : (s : Sbft) → Keeps R s (Views.process_new_view sys s)
  unfolding Views.process_new_view
  process_new_view-Keeps s =
      Keeps-if F s s.active_view _ _ (λ e. Keeps-ok F s s tt (F.start s))
        (λ e.
          Keeps-read F s _ _ (replica-stops (State.primary_id s) s) λ r q. renew-Keeps r.newview s)

  leave_view-Keeps : (s : Sbft) → R s (Views.leave_view sys s)
  unfolding Views.leave_view
  leave_view-Keeps s = F.trans s u _ (cancel-Keeps F s.cur.timeout s) (
      F.trans u v _ (F.forget u (State.next_view s)) (
        F.trans v t _ (F.same v t refl refl refl) (
          F.trans t _ _ (cancel-Keeps F t.view_change_timer t)
            (F.trans _ _ _ (cancel-Keeps F t.cur.timeout _) (broadcast-Keeps F _ _)))))
    where
      u : Sbft
      u = State.cancel s.cur.timeout s

      v : Sbft
      v = record u { replica_state = Views.forget_old (State.next_view s) u.replica_state }

      t : Sbft
      t = record v { view = State.next_view s; active_view = false }

  pub send_view_change-Keeps : (s : Sbft) → Keeps R s (Views.send_view_change sys s)
  unfolding Views.send_view_change
  send_view_change-Keeps s = Keeps-step F s t _ (leave_view-Keeps s) (process_new_view-Keeps t)
    where
      t : Sbft
      t = Views.leave_view sys s
