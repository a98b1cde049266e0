-- ===== src/Orderer/Sbft/Replica.antt =====
-- orderer/sbft/simplebft/simplebft.go: the entry points, and `New`.
use fabric.Base.{
  ℕ, zero, suc, ◌+◌, ◌*◌, ◌%◌, ◌^◌, ltb, Bool, true, false, if◌then◌else◌, not, ◌&&◌, ◌||◌, ◌==◌,
  nat_eq, list_eq, is_none, Option, none, some, List, [], ◌∷◌, Bytes, Result, ok, err, ◌≡◌, ◌>>=◌,
}
use fabric.Base.Assoc.{lookup, remove}
use fabric.Base.Proc.{resume}
use fabric.Orderer.Sbft.Messages.{Config, Batch, Preprepare, SeqView, Subject, subject_eq, Msg}
use fabric.Orderer.Sbft.System.{System, Crash}
use fabric.Orderer.Sbft.State.{
  Sbft, ReplicaInfo, World, Callback, Method, done, broadcast, last_seq, cancel_view_change_timer,
}
use fabric.Orderer.Sbft.Phases.{accept_preprepare, handle_request, maybe_send_next_batch}
use fabric.Orderer.Sbft.Backlog.{
  test_backlog, record_backlog_msg, handle_queueable_message, process_backlog,
}
use fabric.Orderer.Sbft.Views.{send_view_change}
use fabric.Orderer.Sbft.Changes.{handle_new_view, handle_view_change}
use fabric.Orderer.Sbft.Connection.{connection, handle_hello}

pub data Event : Type 0 where
  arrives : Msg → ℕ → Event
  goes_off connects : ℕ → Event
  asks : Bytes → Event

module _ (sys : System) where
  -- simplebft.go
  unfoldable pub queue_or_handle : Msg → ℕ → Bool → Method (Unit {0})
  unfolding record_backlog_msg handle_queueable_message process_backlog
  queue_or_handle m src true s = record_backlog_msg m src s
  queue_or_handle m src false s = handle_queueable_message sys (process_backlog sys) m src s

  unfoldable pub receive : Msg → ℕ → Method (Unit {0})
  unfolding handle_hello handle_request handle_view_change handle_new_view test_backlog
      queue_or_handle
  receive (Msg.hello h) src s = handle_hello sys h src s
  receive (Msg.request req) src s = handle_request sys req s
  receive (Msg.view_change svc) src s = handle_view_change sys svc src s
  receive (Msg.new_view nv) src s = handle_new_view sys nv src s
  receive m src s = resume (test_backlog m src s) (queue_or_handle m src)

  -- request.go
  unfoldable pub propose_request : Bytes → Sbft → Sbft
  unfolding broadcast
  propose_request req s = broadcast (Msg.request req) s

  -- the functions that are given to `sys.Timer`
  unfoldable pub call : Callback → Method (Unit {0})
  unfolding maybe_send_next_batch send_view_change
  call Callback.send_next_batch s = maybe_send_next_batch sys s
  call Callback.request_timed_out s = send_view_change sys s
  call Callback.view_change_timed_out s =
      send_view_change sys record s { view_change_timeout = s.view_change_timeout * 2 % 2 ^ 64 }

  unfoldable pub call_armed : ℕ → Option (ℕ × Callback) → Method (Unit {0})
  unfolding call
  call_armed t none s = done s
  call_armed t (some (d, f)) s =
      call f record s { world = record s.world { armed = remove t s.world.armed } }

  -- Timer `t` goes off, if it is set.
  unfoldable pub fire : ℕ → Method (Unit {0})
  unfolding call_armed
  fire t s = call_armed t (lookup t s.world.armed) s

  unfoldable pub repeat : ℕ → List ReplicaInfo
  repeat zero = []
  repeat (suc n) =
      record {
        back_log = [];
        hello = none;
        signed_viewchange = none;
        viewchange = none;
        newview = none;
      }
      ∷ repeat n

  unfoldable pub blank : ℕ → Config → World → Sbft
  unfolding repeat
  blank id config world = record {
    config = config;
    id = id;
    view = 0;
    batch = [];
    batch_timer = none;
    cur = record {
      subject = record { seq = record { view = 0; seq = 0 }; digest = [] };
      timeout = none;
      preprep = none;
      prep = none;
      commit = none;
      sent_commit = true;
      executed = true;
      checkpoint = none;
      checkpoint_done = true;
    };
    active_view = false;
    last_new_view_sent = none;
    view_change_timeout = 0;
    view_change_timer = none;
    replica_state = repeat config.n;
    pending = [];
    world = world;
  }

  unfoldable pub restore_batch : SeqView → Option Batch → Sbft → Result Crash Sbft
  unfolding accept_preprepare
  restore_batch seq none t = err Crash.nil_pointer
  restore_batch seq (some b) t = ok (accept_preprepare sys seq b t)

  unfoldable pub restore_preprepare : Option Preprepare → Sbft → ℕ → Result Crash Sbft
  unfolding restore_batch
  restore_preprepare none s seq = ok s
  restore_preprepare (some pp) s seq =
      let t = record s { view = pp.seq.view } in
      if ltb seq pp.seq.seq then restore_batch pp.seq pp.batch t else ok t

  -- `c`, which stays empty without a stored commit
  unfoldable pub commit_read : Option Subject → Subject
  commit_read none = record { seq = record { view = 0; seq = 0 }; digest = [] }
  commit_read (some c) = c

  -- Both tests compare the stored commit with the subject.
  unfoldable pub restore_votes : Sbft → Sbft
  unfolding commit_read
  restore_votes s =
      let same =
        not (is_none s.world.stored_commit) && commit_read s.world.stored_commit == s.cur.subject in
      record s {
        cur = record s.cur {
          sent_commit = s.cur.sent_commit || same;
          executed = s.cur.executed || (not (is_none s.world.stored_execute) && same);
        };
      }

  unfoldable pub activate_first : Sbft → ℕ → Sbft
  unfolding restore_votes cancel_view_change_timer
  activate_first s seq =
      let t = restore_votes s in
      cancel_view_change_timer (if seq == 0 then record t { active_view = true } else t)

  unfoldable pub start : ℕ → Config → World → Result Crash Sbft
  unfolding blank last_seq restore_preprepare activate_first
  start id config world = do
    seq ← last_seq sys (blank id config world)
    s ← restore_preprepare world.stored_preprepare (blank id config world) seq
    ok (activate_first s seq)

  -- `New`: none where it returns an error
  unfoldable pub new_sbft : ℕ → Config → World → Option (Result Crash Sbft)
  unfolding start
  new_sbft id config world =
      if ltb config.n ((config.f * 3 + 1) % 2 ^ 64) then none else some (start id config world)

  -- What happens to a replica.
  unfoldable pub step : Event → Method (Unit {0})
  unfolding receive fire connection propose_request
  step (Event.arrives m src) s = receive m src s
  step (Event.goes_off t) s = fire t s
  step (Event.connects dest) s = connection sys dest s
  step (Event.asks req) s = done (propose_request req s)

  -- The states after events that the replica survives.
  pub data Reach (s : Sbft) : Sbft → Type 0 where
    here : Reach s s
    next : {t : Sbft} (e : Event) → Reach s t → (step e t).0 ≡ ok tt → Reach s (step e t).1
