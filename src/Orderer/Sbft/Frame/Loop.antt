-- ===== src/Orderer/Sbft/Frame/Loop.antt =====
-- The frame of the loop over the backlogs, which ends because a round handles a message or is last.
use fabric.Base.{
  ℕ, zero, suc, ◌+◌, ◌≤◌, ◌<◌, ◌≡◌, ◌≢◌, refl, ap, Bool, true, false, Bool-cases, inl, inr, Option,
  none, some, List, [], ◌∷◌, length, Result, ok, err, arith, get_elem?, ◌||◌,
}
use fabric.Base.Proc.{pure, resume, ◌>>=◌, ◌>>◌}
use fabric.Orderer.Sbft.Messages.{Msg}
use fabric.Orderer.Sbft.System.{System, Crash}
use fabric.Orderer.Sbft.State
use fabric.Orderer.Sbft.State.{Sbft, Method, ReplicaInfo}
use fabric.Orderer.Sbft.Backlog
use fabric.Orderer.Sbft.Backlog.{waiting}
use fabric.Orderer.Sbft.Frame.{
  Frame, Keeps, Keeps-ok, Keeps-err, Keeps-step, Keeps-resume, Keeps-read,
}
use fabric.Orderer.Sbft.Frame.Handlers.{
  handle_preprepare-Keeps, handle_prepare-Keeps, handle_commit-Keeps,
}
use fabric.Orderer.Sbft.Frame.Checkpoints.{handle_checkpoint-Keeps}

pub waiting-set_at :
    (i : ℕ) (q r : ReplicaInfo) (rs : List ReplicaInfo)
    → get_elem? rs i ≡ some r
    → waiting (State.set_at i q rs) + length r.back_log ≡ waiting rs + length q.back_log
unfolding waiting State.set_at
waiting-set_at i q r [] e = cc e
waiting-set_at zero q r (x ∷ rs) e = ground arith
waiting-set_at (suc i) q r (x ∷ rs) e = omega (arith, waiting-set_at i q r rs e)

pub replica-stops : (i : ℕ) (s : Sbft) → State.replica i s ≢ err Crash.out_of_fuel
unfolding State.replica
replica-stops i s = ground arith

pub replica-some :
    (i : ℕ) (s : Sbft) (r : ReplicaInfo)
    → State.replica i s ≡ ok r
    → get_elem? s.replica_state i ≡ some r
unfolding State.replica
replica-some i s r e = ground arith

module _ {sys : System} {R : Sbft → Sbft → Type 0} (F : Frame sys R) where
  put_backlog-Keeps :
      (src : ℕ) (ms : List Msg) (s : Sbft) (o : Option ReplicaInfo)
      → get_elem? s.replica_state src ≡ o
      → length ms ≤ length (Backlog.backlog_in o)
      → R s (Backlog.put_backlog src ms s o)
  unfolding Backlog.put_backlog Backlog.backlog_in
  put_backlog-Keeps src ms s none e h = F.start s
  put_backlog-Keeps src ms s (some r) e h = F.put s src r record r { back_log = ms } e h

  pub set_backlog-Keeps :
      (src : ℕ) (ms : List Msg) (s : Sbft)
      → length ms ≤ length (Backlog.backlog_of src s)
      → R s (Backlog.set_backlog src ms s)
  unfolding Backlog.set_backlog Backlog.backlog_of
  set_backlog-Keeps src ms s h = put_backlog-Keeps src ms s (get_elem? s.replica_state src) refl h

  pub discard-Keeps : (src : ℕ) (s : Sbft) → Keeps R s (Backlog.discard_backlog src s)
  unfolding Backlog.discard_backlog
  discard-Keeps src s =
      Keeps-read F s (State.replica src s) _ (replica-stops src s)
        λ r e. Keeps-ok F s _ tt (set_backlog-Keeps src [] s (omega arith))

  -- A step of a loop, which has the result `true` only if it made the backlogs shorter.
  record Drains (s : Sbft) (out : Result Crash Bool × Sbft) : Type 0 where
    kept : Keeps R s out
    shorter : out.0 ≡ ok true → waiting out.1.replica_state < waiting s.replica_state

  put_backlog-less :
      (src : ℕ) (m : Msg) (rest : List Msg) (s : Sbft) (o : Option ReplicaInfo)
      → get_elem? s.replica_state src ≡ o
      → Backlog.backlog_in o ≡ m ∷ rest
      → waiting (Backlog.put_backlog src rest s o).replica_state < waiting s.replica_state
  unfolding Backlog.put_backlog Backlog.backlog_in State.put_replica
  put_backlog-less src m rest s none e h = cc h
  put_backlog-less src m rest s (some r) e h =
      omega
        (arith, waiting-set_at src record r { back_log = rest } r s.replica_state e, ap length h)

  set_backlog-less :
      (src : ℕ) (m : Msg) (rest : List Msg) (s : Sbft)
      → Backlog.backlog_of src s ≡ m ∷ rest
      → waiting (Backlog.set_backlog src rest s).replica_state < waiting s.replica_state
  unfolding Backlog.set_backlog Backlog.backlog_of
  set_backlog-less src m rest s e =
      put_backlog-less src m rest s (get_elem? s.replica_state src) refl e

  module _ (k : ℕ) (handle : Msg → ℕ → Method (Unit {0}))
      (kh : (m : Msg) (src : ℕ) (t : Sbft)
        → waiting t.replica_state < k
        → Keeps R t (handle m src t)) where
    drain_step-Drains :
        (src : ℕ) (next : Method Bool) (ms : List Msg) (s : Sbft)
        → Backlog.backlog_of src s ≡ ms
        → waiting s.replica_state ≤ k
        → ((t : Sbft) → waiting t.replica_state < waiting s.replica_state → Keeps R t (next t))
        → Drains s (Backlog.drain_step handle src next ms s)
    unfolding Backlog.drain_step
    drain_step-Drains src next [] s e h kn = record {
      kept = Keeps-ok F s s false (F.start s);
      shorter = λ q. cc q;
    }
    drain_step-Drains src next (m ∷ rest) s e h kn =
        elim (Bool-cases (Backlog.test_backlog_message m s)) [
          | inl q ↦ rw q record { kept = Keeps-ok F s s false (F.start s); shorter = λ p. cc p }
          | inr q ↦ rw q record {
            kept =
                Keeps-step F s t _ (set_backlog-Keeps src rest s (omega (arith, ap length e)))
                  after;
            shorter = λ p. omega (arith, F.less t _ after.holds, fewer);
          }
        ]
      where
        t : Sbft
        t = Backlog.set_backlog src rest s

        fewer : waiting t.replica_state < waiting s.replica_state
        fewer = set_backlog-less src m rest s e

        after : Keeps R t ((handle m src >> next >> pure true) t)
        after =
            Keeps-resume F t _ _
              (Keeps-resume F t _ _ (kh m src t (omega (arith, fewer)))
                λ a u g. kn u (omega (arith, F.less t u g, fewer)))
              λ a u g. Keeps-ok F u u true (F.start u)

    drain-Drains :
        (fuel src : ℕ) (s : Sbft)
        → waiting s.replica_state ≤ k
        → waiting s.replica_state < fuel
        → Drains s (Backlog.drain fuel handle src s)
    unfolding Backlog.drain
    drain-Drains zero src s h f = ground arith
    drain-Drains (suc fuel) src s h f =
        drain_step-Drains src (Backlog.drain fuel handle src) (Backlog.backlog_of src s) s refl h
          λ t l. (drain-Drains fuel src t (omega (arith, l)) (omega (arith, l))).kept

  Drains-join :
      (s : Sbft) (a : Bool) (t : Sbft) (out : Result Crash Bool × Sbft)
      → R s t
      → (a ≡ true → waiting t.replica_state < waiting s.replica_state)
      → Drains t out
      → Drains s (resume out (λ b. pure (a || b)))
  Drains-join s a t (ok b, u) g l d = record {
    kept = Keeps-ok F s u (a || b) (F.trans s t u g d.kept.holds);
    shorter = λ q. ground (arith, l, d.shorter, F.less s t g, F.less t u d.kept.holds);
  }
  Drains-join s a t (err e, u) g l d = record {
    kept = Keeps-err F s u e (λ q. d.kept.stops (ap err q)) (F.trans s t u g d.kept.holds);
    shorter = λ q. cc q;
  }

  drain_all-Drains :
      (bound : ℕ) (one : ℕ → Method Bool) (n src : ℕ) (s : Sbft)
      → ((i : ℕ) (t : Sbft) → waiting t.replica_state ≤ bound → Drains t (one i t))
      → waiting s.replica_state ≤ bound
      → Drains s (Backlog.drain_all one n src s)
  unfolding Backlog.drain_all
  drain_all-Drains bound one zero src s ko h = record {
    kept = Keeps-ok F s s false (F.start s);
    shorter = λ q. cc q;
  }
  drain_all-Drains bound one (suc n) src s ko h =
      go (one src s) (ko src s h)
        λ a t g. drain_all-Drains bound one n (suc src) t ko (omega (arith, F.less s t g))
    where
      go :
          (out : Result Crash Bool × Sbft)
          → Drains s out
          → ((a : Bool) (t : Sbft) → R s t → Drains t (Backlog.drain_all one n (suc src) t))
          → Drains s (resume out λ a. Backlog.drain_all one n (suc src) >>= λ b. pure (a || b))
      go (ok a, t) d k =
          Drains-join s a t _ d.kept.holds (λ q. d.shorter (ap ok q)) (k a t d.kept.holds)
      go (err e, t) d k = record {
        kept = Keeps-err F s t e (λ q. d.kept.stops (ap err q)) d.kept.holds;
        shorter = λ q. cc q;
      }

  pub handle_queueable_message-Keeps :
      (again : Method (Unit {0})) (m : Msg) (src : ℕ) (s : Sbft)
      → ((t : Sbft) → R s t → Keeps R t (again t))
      → Keeps R s (Backlog.handle_queueable_message sys again m src s)
  unfolding Backlog.handle_queueable_message
  handle_queueable_message-Keeps again (Msg.preprepare pp) src s k =
      handle_preprepare-Keeps F pp src s
  handle_queueable_message-Keeps again (Msg.prepare p) src s k = handle_prepare-Keeps F p src s
  handle_queueable_message-Keeps again (Msg.commit c) src s k = handle_commit-Keeps F c src s
  handle_queueable_message-Keeps again (Msg.checkpoint c) src s k =
      handle_checkpoint-Keeps F again c src s k
  handle_queueable_message-Keeps again (Msg.request r) src s k = Keeps-ok F s s tt (F.start s)
  handle_queueable_message-Keeps again (Msg.view_change v) src s k = Keeps-ok F s s tt (F.start s)
  handle_queueable_message-Keeps again (Msg.new_view v) src s k = Keeps-ok F s s tt (F.start s)
  handle_queueable_message-Keeps again (Msg.hello h) src s k = Keeps-ok F s s tt (F.start s)

  -- the end of a round, and the rounds after it
  repeat-Keeps :
      (next : Method (Unit {0})) (s : Sbft) (out : Result Crash Bool × Sbft)
      → Drains s out
      → ((t : Sbft) → waiting t.replica_state < waiting s.replica_state → Keeps R t (next t))
      → Keeps R s (resume out (Backlog.repeat_if sys next))
  unfolding Backlog.repeat_if
  repeat-Keeps next s (ok true, t) d kn = Keeps-step F s t _ d.kept.holds (kn t (d.shorter refl))
  repeat-Keeps next s (ok false, t) d kn = Keeps-ok F s t tt d.kept.holds
  repeat-Keeps next s (err e, t) d kn =
      Keeps-err F s t e (λ q. d.kept.stops (ap err q)) d.kept.holds

  process_backlog_fuel-Keeps :
      (fuel : ℕ) (s : Sbft)
      → waiting s.replica_state < fuel
      → Keeps R s (Backlog.process_backlog_fuel sys fuel s)
  unfolding Backlog.process_backlog_fuel
  process_backlog_fuel-Keeps zero s h = ground arith
  process_backlog_fuel-Keeps (suc fuel) s h =
      repeat-Keeps (Backlog.process_backlog_fuel sys fuel) s _
        (drain_all-Drains fuel _ (length s.replica_state) 0 s
          (λ i t l.
            drain-Drains fuel _
              (λ m src u w.
                handle_queueable_message-Keeps (Backlog.process_backlog_fuel sys fuel) m src u
                  λ v g. process_backlog_fuel-Keeps fuel v (omega (arith, w, F.less u v g)))
              (suc fuel) i t l (omega (arith, l)))
          (omega (arith, h)))
        λ t l. process_backlog_fuel-Keeps fuel t (omega (arith, l, h))

  pub process_backlog-Keeps : (s : Sbft) → Keeps R s (Backlog.process_backlog sys s)
  unfolding Backlog.process_backlog
  process_backlog-Keeps s =
      process_backlog_fuel-Keeps (suc (waiting s.replica_state)) s (omega arith)
