-- ===== src/Orderer/Sbft/Frame/Replica.antt =====
-- The frame of the entry points. `recordBacklogMsg` makes a backlog longer: what it keeps is a
-- parameter.
use fabric.Base.{
  ℕ, ◌≢◌, refl, Bool, true, false, Option, none, some, length, Result, ok, err, nat_eq, arith, ltb,
  ◌||◌, ◌*◌, ◌%◌, ◌^◌,
}
use fabric.Base.Assoc.{lookup, remove}
use fabric.Base.Proc.{resume, pure}
use fabric.Orderer.Sbft.Messages.{Msg}
use fabric.Orderer.Sbft.System.{System, Crash}
use fabric.Orderer.Sbft.State
use fabric.Orderer.Sbft.State.{Sbft, Method, ReplicaInfo, Callback}
use fabric.Orderer.Sbft.Backlog
use fabric.Orderer.Sbft.Replica
use fabric.Orderer.Sbft.Frame.{Frame, Keeps, Keeps-ok, Keeps-step}
use fabric.Orderer.Sbft.Frame.Requests.{handle_request-Keeps, maybe_send_next_batch-Keeps}
use fabric.Orderer.Sbft.Frame.Loop.{
  replica-stops, process_backlog-Keeps, handle_queueable_message-Keeps,
}
use fabric.Orderer.Sbft.Frame.Views.{send_view_change-Keeps}
use fabric.Orderer.Sbft.Frame.Changes.{handle_new_view-Keeps, handle_view_change-Keeps}
use fabric.Orderer.Sbft.Frame.Connection.{handle_hello-Keeps}

module _ {sys : System} {R : Sbft → Sbft → Type 0} (F : Frame sys R) where
  call-Keeps : (f : Callback) (s : Sbft) → Keeps R s (Replica.call sys f s)
  unfolding Replica.call
  call-Keeps Callback.send_next_batch s = maybe_send_next_batch-Keeps F s
  call-Keeps Callback.request_timed_out s = send_view_change-Keeps F s
  call-Keeps Callback.view_change_timed_out s =
      Keeps-step F s t _ (F.same s t refl refl refl) (send_view_change-Keeps F t)
    where
      t : Sbft
      t = record s { view_change_timeout = s.view_change_timeout * 2 % 2 ^ 64 }

  call_armed-Keeps :
      (t : ℕ) (o : Option (ℕ × Callback)) (s : Sbft) → Keeps R s (Replica.call_armed sys t o s)
  unfolding Replica.call_armed
  call_armed-Keeps t none s = Keeps-ok F s s tt (F.start s)
  call_armed-Keeps t (some (d, f)) s =
      Keeps-step F s u _ (F.same s u refl refl refl) (call-Keeps f u)
    where
      u : Sbft
      u = record s { world = record s.world { armed = remove t s.world.armed } }

  pub fire-Keeps : (t : ℕ) (s : Sbft) → Keeps R s (Replica.fire sys t s)
  unfolding Replica.fire
  fire-Keeps t s = call_armed-Keeps t (lookup t s.world.armed) s

  module _ {Q : Sbft → Sbft → Type 0} (weaken : (s t : Sbft) → R s t → Q s t)
      (recorded : (m : Msg) (src : ℕ) (s : Sbft)
        → Keeps Q s (Backlog.record_backlog_msg m src s)) where
    weakened : {A : Type 0} (s : Sbft) (out : Result Crash A × Sbft) → Keeps R s out → Keeps Q s out
    weakened s out k = record { stops = k.stops; holds = weaken s out.1 k.holds }

    queue-Keeps :
        (m : Msg) (src : ℕ) (b : Bool) (s : Sbft)
        → Keeps Q s (Replica.queue_or_handle sys m src b s)
    unfolding Replica.queue_or_handle
    queue-Keeps m src true s = recorded m src s
    queue-Keeps m src false s = weakened s _ (
        handle_queueable_message-Keeps F (Backlog.process_backlog sys) m src s
          λ t g. process_backlog-Keeps F t)

    test-Keeps :
        (m : Msg) (src : ℕ) (s : Sbft) (r : Result Crash ReplicaInfo)
        → r ≢ err Crash.out_of_fuel
        → Keeps Q s (
            resume
              (resume
                (r, s)
                λ i t. pure (ltb 0 (length i.back_log) || Backlog.test_backlog_message m t) t)
              (Replica.queue_or_handle sys m src))
    test-Keeps m src s (ok i) ne = queue-Keeps m src _ s
    test-Keeps m src s (err e) ne = record {
      stops = λ q. ground (arith, ne);
      holds = weaken s s (F.start s);
    }

    tested-Keeps :
        (m : Msg) (src : ℕ) (s : Sbft)
        → Keeps Q s (resume (Backlog.test_backlog m src s) (Replica.queue_or_handle sys m src))
    unfolding Backlog.test_backlog
    tested-Keeps m src s = test-Keeps m src s (State.replica src s) (replica-stops src s)

    pub receive-Keeps : (m : Msg) (src : ℕ) (s : Sbft) → Keeps Q s (Replica.receive sys m src s)
    unfolding Replica.receive
    receive-Keeps (Msg.hello h) src s = weakened s _ (handle_hello-Keeps F h src s)
    receive-Keeps (Msg.request r) src s = weakened s _ (handle_request-Keeps F r s)
    receive-Keeps (Msg.view_change v) src s = weakened s _ (handle_view_change-Keeps F v src s)
    receive-Keeps (Msg.new_view v) src s = weakened s _ (handle_new_view-Keeps F v src s)
    receive-Keeps (Msg.preprepare p) src s = tested-Keeps (Msg.preprepare p) src s
    receive-Keeps (Msg.prepare p) src s = tested-Keeps (Msg.prepare p) src s
    receive-Keeps (Msg.commit c) src s = tested-Keeps (Msg.commit c) src s
    receive-Keeps (Msg.checkpoint c) src s = tested-Keeps (Msg.checkpoint c) src s
