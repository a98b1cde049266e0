-- ===== src/Orderer/Sbft/Crashes.antt =====
-- orderer/sbft/simplebft/prepare.go: a message that makes a replica panic.
use fabric.Base.{
  ℕ, ◌≡◌, true, false, none, some, [], err, arith, get_elem?, ==_refl, nat_eq, option_eq, list_eq,
}
use fabric.Orderer.Sbft.Messages.{subject_eq, Msg}
use fabric.Orderer.Sbft.System.{System, Crash}
use fabric.Orderer.Sbft.State.{Sbft, ReplicaInfo}
use fabric.Orderer.Sbft.Phases
use fabric.Orderer.Sbft.Backlog
use fabric.Orderer.Sbft.Replica
use fabric.Orderer.Sbft.Backlogs.Short.{replica_ok}

not_ahead :
    (s : Sbft)
    → s.active_view ≡ true
    → s.cur.subject.seq.view ≡ s.view
    → Backlog.is_ahead s s.cur.subject.seq ≡ false
unfolding Backlog.is_ahead
not_ahead s a v = ground arith

prepare_crash :
    (sys : System) (src : ℕ) (s : Sbft)
    → s.cur.prep ≡ none
    → Phases.handle_prepare sys s.cur.subject src s ≡ (err Crash.nil_map, s)
unfolding Phases.handle_prepare Phases.add_prepare
prepare_crash sys src s e = ground (arith, ==_refl s.cur.subject)

-- Take a replica that has not accepted a preprepare and whose view is active and that of its
-- subject, and a source with no backlog. A prepare for the replica's subject, which is the empty
-- one, panics.
pub receive-prepare_crash :
    (sys : System) (src : ℕ) (s : Sbft) (r : ReplicaInfo)
    → s.cur.prep ≡ none
    → s.active_view ≡ true
    → s.cur.subject.seq.view ≡ s.view
    → get_elem? s.replica_state src ≡ some r
    → r.back_log ≡ []
    → Replica.receive sys (Msg.prepare s.cur.subject) src s ≡ (err Crash.nil_map, s)
unfolding Replica.receive Backlog.test_backlog Backlog.test_backlog_message Replica.queue_or_handle
    Backlog.handle_queueable_message
receive-prepare_crash sys src s r e a v h b =
    rw (replica_ok src r s h, b, not_ahead s a v) (prepare_crash sys src s e)
