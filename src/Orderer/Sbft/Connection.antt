-- ===== src/Orderer/Sbft/Connection.antt =====
-- orderer/sbft/simplebft/connection.go: what replicas tell each other when they connect.
use fabric.Base.{
  ℕ, ltb, leb, Bool, true, false, if◌then◌else◌, not, ◌&&◌, ◌==◌, nat_eq, list_eq, Option, none,
  some, List, [], Result, ok, err,
}
use fabric.Base.Proc.{pure, resume, ◌>>◌}
use fabric.Orderer.Sbft.Messages.{
  Batch, BatchHeader, Subject, subject_eq, ViewChange, Signed, NewView, Hello, Msg,
}
use fabric.Orderer.Sbft.System.{System, Crash, BatchError, check_batch}
use fabric.Orderer.Sbft.Xset.{make_xset}
use fabric.Orderer.Sbft.State.{
  Sbft, Method, done, crash, primary_id_view, is_primary, send_to, replica, put_replica, last_seq,
  deliver_batch,
}
use fabric.Orderer.Sbft.Phases.{make_checkpoint}
use fabric.Orderer.Sbft.Backlog.{discard_backlog, process_backlog}
use fabric.Orderer.Sbft.Views.{check_new_view_signatures, maybe_deliver_using_xset}

module _ (sys : System) where
  -- connection.go
  unfoldable pub send_if : Bool → ℕ → Msg → Sbft → Sbft
  unfolding send_to
  send_if test dest m s = if test then send_to dest m s else s

  unfoldable pub send_batch : ℕ → Option Batch → Method (Unit {0})
  unfolding send_to
  send_batch dest none s = crash Crash.nil_pointer s
  send_batch dest (some b) s =
      done (send_to dest (Msg.preprepare record { seq = s.cur.subject.seq; batch = some b }) s)

  unfoldable pub proposal : ℕ → Method (Unit {0})
  unfolding send_to send_batch
  proposal dest s =
      if is_primary s
      then send_batch dest s.cur.preprep s
      else done (send_to dest (Msg.prepare s.cur.subject) s)

  -- the messages of the batch in flight
  unfoldable pub send_in_flight : ℕ → Method (Unit {0})
  unfolding proposal send_if make_checkpoint
  send_in_flight dest = proposal dest >> λ s. done (
      send_if s.cur.executed dest (Msg.checkpoint (make_checkpoint sys s))
        (send_if s.cur.sent_commit dest (Msg.commit s.cur.subject) s))

  unfoldable pub send_vote : ℕ → Option Signed → Sbft → Sbft
  unfolding send_to
  send_vote dest none s = s
  send_vote dest (some svc) s = send_to dest (Msg.view_change svc) s

  unfoldable pub send_missing : ℕ → Result BatchError BatchHeader → Method (Unit {0})
  unfolding send_in_flight
  send_missing dest (err e) s = crash Crash.bad_header s
  send_missing dest (ok header) s =
      if ltb header.seq s.cur.subject.seq.seq && s.active_view
      then send_in_flight dest s
      else done s

  unfoldable pub hello_of : Sbft → Hello
  hello_of s = record {
    batch = record s.world.last_batch { payloads = [] };
    new_view = if is_primary s && s.active_view then s.last_new_view_sent else none;
  }

  unfoldable pub connection : ℕ → Method (Unit {0})
  unfolding hello_of send_to send_vote send_missing check_batch
  connection dest s =
      let h = hello_of s in
      resume (replica s.id s, send_to dest (Msg.hello h) s)
        λ r t.
          send_missing dest (check_batch sys s.config h.batch false true)
            (send_vote dest r.signed_viewchange t)

  unfoldable pub deliver_newer : Batch → ℕ → ℕ → Method (Unit {0})
  unfolding deliver_batch
  deliver_newer b theirs mine t = done (if ltb mine theirs then deliver_batch sys b t else t)

  unfoldable pub join_view : NewView → Sbft → Sbft
  join_view nv s = if leb s.view nv.view then record s { view = nv.view; active_view = true } else s

  -- A Hello with a new view; `false` ends the handler.
  unfoldable pub join : NewView → Option (Option Subject × Batch) → Method Bool
  unfolding join_view maybe_deliver_using_xset
  join nv none s = pure false s
  join nv (some found) s = (maybe_deliver_using_xset sys nv >> pure true) (join_view nv s)

  unfoldable pub join_checked : NewView → Result BatchError (List ViewChange) → Method Bool
  unfolding make_xset join
  join_checked nv (err e) s = pure false s
  join_checked nv (ok vcs) s = resume (make_xset sys s.config s.view vcs, s) (join nv)

  unfoldable pub hello_view : Option NewView → ℕ → Method Bool
  unfolding check_new_view_signatures join_checked
  hello_view none src s = pure true s
  hello_view (some nv) src s =
      if not (primary_id_view s nv.view == src)
      then pure false s
      else join_checked nv (check_new_view_signatures sys s nv) s

  unfoldable pub store_hello : Hello → ℕ → Bool → Method (Unit {0})
  unfolding replica put_replica discard_backlog process_backlog
  store_hello h src false s = done s
  store_hello h src true s =
      resume (replica src s, s)
        λ r t.
          (discard_backlog src >> process_backlog sys)
            (put_replica src record r { hello = some h } t)

  unfoldable pub accept_hello : Hello → ℕ → Result BatchError BatchHeader → Method (Unit {0})
  unfolding last_seq deliver_newer hello_view store_hello
  accept_hello h src (err e) s = done s
  accept_hello h src (ok bh) s =
      resume (resume (last_seq sys s, s) (deliver_newer h.batch bh.seq))
        λ a. λ t. resume (hello_view h.new_view src t) (store_hello h src)

  unfoldable pub handle_hello : Hello → ℕ → Method (Unit {0})
  unfolding check_batch accept_hello
  handle_hello h src s = accept_hello h src (check_batch sys s.config h.batch false true) s
