-- ===== src/Orderer/Sbft/Frame/Connection.antt =====
-- The frame of connection.go.
use fabric.Base.{
  ℕ, refl, Bool, true, false, Bool-cases, inl, inr, Option, none, some, List, Result, ok, err, ◌==◌,
  nat_eq, arith, ltb, leb, ◌&&◌, not,
}
use fabric.Orderer.Sbft.Messages.{
  Batch, BatchHeader, Subject, ViewChange, Signed, NewView, Hello, Msg,
}
use fabric.Orderer.Sbft.System.{System, Crash, BatchError, check_batch}
use fabric.Orderer.Sbft.State
use fabric.Orderer.Sbft.State.{Sbft, Method, ReplicaInfo, Callback}
use fabric.Orderer.Sbft.Views
use fabric.Orderer.Sbft.Connection
use fabric.Orderer.Sbft.Frame.{
  Frame, Keeps, Keeps-ok, Keeps-err, Keeps-step, Keeps-if, Keeps-resume, Keeps-read,
}
use fabric.Orderer.Sbft.Frame.Votes.{deliver_batch-Keeps}
use fabric.Orderer.Sbft.Frame.Requests.{last_seq-stops}
use fabric.Orderer.Sbft.Frame.Loop.{
  replica-stops, replica-some, discard-Keeps, process_backlog-Keeps,
}
use fabric.Orderer.Sbft.Frame.Views.{make_xset-stops, maybe_deliver_using_xset-Keeps}

module _ {sys : System} {R : Sbft → Sbft → Type 0} (F : Frame sys R) where
  -- connection.go
  pub send_to-Keeps : (dest : ℕ) (m : Msg) (s : Sbft) → R s (State.send_to dest m s)
  unfolding State.send_to
  send_to-Keeps dest m s = F.same s _ refl refl refl

  send_if-Keeps :
      (b : Bool) (dest : ℕ) (m : Msg) (s : Sbft) → R s (Connection.send_if sys b dest m s)
  unfolding Connection.send_if
  send_if-Keeps true dest m s = send_to-Keeps dest m s
  send_if-Keeps false dest m s = F.start s

  send_batch-Keeps :
      (dest : ℕ) (o : Option Batch) (s : Sbft) → Keeps R s (Connection.send_batch sys dest o s)
  unfolding Connection.send_batch
  send_batch-Keeps dest none s = Keeps-err F s s Crash.nil_pointer (λ h. cc h) (F.start s)
  send_batch-Keeps dest (some b) s = Keeps-ok F s _ tt (send_to-Keeps dest _ s)

  proposal-Keeps : (dest : ℕ) (s : Sbft) → Keeps R s (Connection.proposal sys dest s)
  unfolding Connection.proposal
  proposal-Keeps dest s =
      Keeps-if F s (State.is_primary s) _ _ (λ e. send_batch-Keeps dest s.cur.preprep s)
        (λ e. Keeps-ok F s _ tt (send_to-Keeps dest _ s))

  send_in_flight-Keeps : (dest : ℕ) (s : Sbft) → Keeps R s (Connection.send_in_flight sys dest s)
  unfolding Connection.send_in_flight
  send_in_flight-Keeps dest s = Keeps-resume F s _ _ (proposal-Keeps dest s) λ a t g.
      Keeps-ok F t _ tt (
        F.trans t _ _ (send_if-Keeps t.cur.sent_commit dest _ t)
          (send_if-Keeps t.cur.executed dest _ _))

  send_missing-Keeps :
      (dest : ℕ) (r : Result BatchError BatchHeader) (s : Sbft)
      → Keeps R s (Connection.send_missing sys dest r s)
  unfolding Connection.send_missing
  send_missing-Keeps dest (err e) s = Keeps-err F s s Crash.bad_header (λ h. cc h) (F.start s)
  send_missing-Keeps dest (ok h) s =
      Keeps-if F s (ltb h.seq s.cur.subject.seq.seq && s.active_view) _ _
        (λ e. send_in_flight-Keeps dest s) (λ e. Keeps-ok F s s tt (F.start s))

  send_vote-Keeps :
      (dest : ℕ) (o : Option Signed) (s : Sbft) → R s (Connection.send_vote sys dest o s)
  unfolding Connection.send_vote
  send_vote-Keeps dest none s = F.start s
  send_vote-Keeps dest (some svc) s = send_to-Keeps dest _ s

  pub connection-Keeps : (dest : ℕ) (s : Sbft) → Keeps R s (Connection.connection sys dest s)
  unfolding Connection.connection
  connection-Keeps dest s = Keeps-step F s t _ (send_to-Keeps dest _ s) (
      Keeps-read F t (State.replica s.id s) _ (replica-stops s.id s) λ r e.
        Keeps-step F t (Connection.send_vote sys dest r.signed_viewchange t) _
          (send_vote-Keeps dest r.signed_viewchange t) (send_missing-Keeps dest _ _))
    where
      t : Sbft
      t = State.send_to dest (Msg.hello (Connection.hello_of sys s)) s

  deliver_newer-Keeps :
      (b : Batch) (theirs mine : ℕ) (s : Sbft)
      → Keeps R s (Connection.deliver_newer sys b theirs mine s)
  unfolding Connection.deliver_newer
  deliver_newer-Keeps b theirs mine s = elim (Bool-cases (ltb mine theirs)) [
    | inl e ↦ rw e (Keeps-ok F s _ tt (deliver_batch-Keeps F b s))
    | inr e ↦ rw e (Keeps-ok F s s tt (F.start s))
  ]

  join_view-Keeps : (nv : NewView) (s : Sbft) → R s (Connection.join_view sys nv s)
  unfolding Connection.join_view
  join_view-Keeps nv s = elim (Bool-cases (leb s.view nv.view)) [
    | inl e ↦ rw e (F.same s _ refl refl refl)
    | inr e ↦ rw e (F.start s)
  ]

  join-Keeps :
      (nv : NewView) (o : Option (Option Subject × Batch)) (s : Sbft)
      → Keeps R s (Connection.join sys nv o s)
  unfolding Connection.join
  join-Keeps nv none s = Keeps-ok F s s false (F.start s)
  join-Keeps nv (some found) s = Keeps-step F s t _ (join_view-Keeps nv s) (
      Keeps-resume F t _ _ (maybe_deliver_using_xset-Keeps F nv t)
        λ a u g. Keeps-ok F u u true (F.start u))
    where
      t : Sbft
      t = Connection.join_view sys nv s

  join_checked-Keeps :
      (nv : NewView) (r : Result BatchError (List ViewChange)) (s : Sbft)
      → Keeps R s (Connection.join_checked sys nv r s)
  unfolding Connection.join_checked
  join_checked-Keeps nv (err e) s = Keeps-ok F s s false (F.start s)
  join_checked-Keeps nv (ok vcs) s =
      Keeps-read F s _ _ (make_xset-stops sys s vcs) λ o e. join-Keeps nv o s

  hello_view-Keeps :
      (o : Option NewView) (src : ℕ) (s : Sbft) → Keeps R s (Connection.hello_view sys o src s)
  unfolding Connection.hello_view
  hello_view-Keeps none src s = Keeps-ok F s s true (F.start s)
  hello_view-Keeps (some nv) src s =
      Keeps-if F s (not (State.primary_id_view s nv.view == src)) _ _
        (λ e. Keeps-ok F s s false (F.start s))
        (λ e. join_checked-Keeps nv (Views.check_new_view_signatures sys s nv) s)

  store_hello-Keeps :
      (h : Hello) (src : ℕ) (b : Bool) (s : Sbft) → Keeps R s (Connection.store_hello sys h src b s)
  unfolding Connection.store_hello
  store_hello-Keeps h src false s = Keeps-ok F s s tt (F.start s)
  store_hello-Keeps h src true s =
      Keeps-read F s (State.replica src s) _ (replica-stops src s) λ r e.
        Keeps-step F s _ _
          (F.put s src r record r { hello = some h } (replica-some src s r e) (omega arith))
          (Keeps-resume F _ _ _ (discard-Keeps F src _) λ a u g. process_backlog-Keeps F u)

  accept_hello-Keeps :
      (h : Hello) (src : ℕ) (r : Result BatchError BatchHeader) (s : Sbft)
      → Keeps R s (Connection.accept_hello sys h src r s)
  unfolding Connection.accept_hello
  accept_hello-Keeps h src (err e) s = Keeps-ok F s s tt (F.start s)
  accept_hello-Keeps h src (ok bh) s =
      Keeps-resume F s _ _
        (Keeps-read F s _ _ (last_seq-stops sys s)
          λ mine q. deliver_newer-Keeps h.batch bh.seq mine s)
        λ a t g.
          Keeps-resume F t _ _ (hello_view-Keeps h.new_view src t)
            λ b u i. store_hello-Keeps h src b u

  pub handle_hello-Keeps :
      (h : Hello) (src : ℕ) (s : Sbft) → Keeps R s (Connection.handle_hello sys h src s)
  unfolding Connection.handle_hello
  handle_hello-Keeps h src s =
      accept_hello-Keeps h src (check_batch sys s.config h.batch false true) s
