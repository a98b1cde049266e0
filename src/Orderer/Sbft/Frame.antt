-- ===== src/Orderer/Sbft/Frame.antt =====
-- orderer/sbft/simplebft: what holds of every handler because it holds of the few assignments to
-- `cur` and to `replicaState` that the handlers are made of.
pub mod Votes
pub mod Requests
pub mod Handlers
pub mod Loop
pub mod Views
pub mod Changes
pub mod Connection
pub mod Replica
pub mod Checkpoints
use fabric.Base.{
  ℕ, ◌≡◌, ◌≢◌, refl, ◌-◌, ◌≤◌, ◌<◌, Bool, true, false, if◌then◌else◌, Option, none, some, List, [],
  ◌∷◌, Bytes, length, get_elem?, Result, ok, err, arith, nat_eq,
}
use fabric.Base.Assoc.{Assoc, lookup, insert}
use fabric.Base.Proc.{resume}
use fabric.Orderer.Sbft.Messages.{SeqView, Batch, Subject, Checkpoint, Msg}
use fabric.Orderer.Sbft.System.{System, Crash, no_faulty_quorum}
use fabric.Orderer.Sbft.State.{Sbft, ReqInfo, ReplicaInfo, Method, entries, put_replica}
use fabric.Orderer.Sbft.Backlog.{waiting}
use fabric.Orderer.Sbft.Views.{forget_old}

-- The action has enough fuel, and relates the state before it and after it.
pub record Keeps {ℓ} {A : Type ℓ} (R : Sbft → Sbft → Type 0) (s : Sbft)
    (out : Result Crash A × Sbft) : Type ℓ where
  pub stops : out.0 ≢ err Crash.out_of_fuel
  pub holds : R s out.1

abbrev pub fresh_cur : SeqView → Bytes → Option ℕ → Batch → ReqInfo
fresh_cur seq digest timeout b = record {
  subject = record { seq = seq; digest = digest };
  timeout = timeout;
  preprep = some b;
  prep = some [];
  commit = some [];
  sent_commit = false;
  executed = false;
  checkpoint = some [];
  checkpoint_done = false;
}

-- The assignments, with what the code has tested before each.
pub record Frame (sys : System) (R : Sbft → Sbft → Type 0) : Type 0 where
  pub start : (s : Sbft) → R s s
  pub trans : (s t u : Sbft) → R s t → R t u → R s u
  pub less : (s t : Sbft) → R s t → waiting t.replica_state ≤ waiting s.replica_state
  pub same :
      (s t : Sbft) → t.cur ≡ s.cur → t.config ≡ s.config → t.replica_state ≡ s.replica_state → R s t
  pub accept :
      (s : Sbft) (seq : SeqView) (digest : Bytes) (timeout : Option ℕ) (b : Batch)
      → R s record s { cur = fresh_cur seq digest timeout b }
  pub vote_prepare :
      (s : Sbft) (p : Subject) (src : ℕ) (m : Assoc ℕ Subject)
      → s.cur.prep ≡ some m
      → lookup src m ≡ none
      → p ≡ s.cur.subject
      → R s record s { cur = record s.cur { prep = some (insert src p m) } }
  pub vote_commit :
      (s : Sbft) (c : Subject) (src : ℕ) (m : Assoc ℕ Subject)
      → s.cur.commit ≡ some m
      → lookup src m ≡ none
      → c ≡ s.cur.subject
      → R s record s { cur = record s.cur { commit = some (insert src c m) } }
  pub vote_checkpoint :
      (s : Sbft) (c : Checkpoint) (src : ℕ) (m : Assoc ℕ Checkpoint)
      → s.cur.checkpoint ≡ some m
      → sys.check_sig c.digest src c.signature ≡ true
      → c.seq ≡ s.cur.subject.seq.seq
      → R s record s { cur = record s.cur { checkpoint = some (insert src c m) } }
  pub send_commit :
      (s : Sbft)
      → no_faulty_quorum s.config - 1 ≤ length (entries s.cur.prep)
      → R s record s { cur = record s.cur { sent_commit = true } }
  pub execute :
      (s : Sbft)
      → no_faulty_quorum s.config ≤ length (entries s.cur.commit)
      → R s record s { cur = record s.cur { executed = true } }
  pub complete : (s : Sbft) → R s record s { cur = record s.cur { checkpoint_done = true } }
  pub acquiesce :
      (s : Sbft)
      → R s record s {
        cur = record s.cur {
          subject = record s.cur.subject { seq = record s.cur.subject.seq { seq = 0 } };
        };
      }
  pub put :
      (s : Sbft) (i : ℕ) (r q : ReplicaInfo)
      → get_elem? s.replica_state i ≡ some r
      → length q.back_log ≤ length r.back_log
      → R s (put_replica i q s)
  pub forget :
      (s : Sbft) (view : ℕ) → R s record s { replica_state = forget_old view s.replica_state }

module _ {ℓ} {A : Type ℓ} {sys : System} {R : Sbft → Sbft → Type 0} (F : Frame sys R) where
  pub Keeps-ok : (s t : Sbft) (a : A) → R s t → Keeps R s (ok a, t)
  Keeps-ok s t a h = record { stops = λ e. cc e; holds = h }

  pub Keeps-err :
      (s t : Sbft) (e : Crash) → e ≢ Crash.out_of_fuel → R s t → Keeps {A = A} R s (err e, t)
  Keeps-err s t e ne h = record { stops = λ q. ground (arith, ne); holds = h }

  pub Keeps-step :
      (s t : Sbft) (out : Result Crash A × Sbft) → R s t → Keeps R t out → Keeps R s out
  Keeps-step s t out h k = record { stops = k.stops; holds = F.trans s t out.1 h k.holds }

  pub Keeps-if :
      (s : Sbft) (b : Bool) (m n : Result Crash A × Sbft)
      → (b ≡ true → Keeps R s m)
      → (b ≡ false → Keeps R s n)
      → Keeps R s (if b then m else n)
  Keeps-if s true m n km kn = km refl
  Keeps-if s false m n km kn = kn refl

module _ {ℓ κ} {A : Type ℓ} {B : Type κ} {sys : System} {R : Sbft → Sbft → Type 0}
    (F : Frame sys R) where
  pub Keeps-resume :
      (s : Sbft) (out : Result Crash A × Sbft) (f : A → Method B)
      → Keeps R s out
      → ((a : A) (t : Sbft) → R s t → Keeps R t (f a t))
      → Keeps R s (resume out f)
  Keeps-resume s (ok a, t) f k kf = Keeps-step F s t (f a t) k.holds (kf a t k.holds)
  Keeps-resume s (err e, t) f k kf = record {
    stops = λ q. ground (arith, k.stops);
    holds = k.holds;
  }

  -- A step that only reads the state.
  pub Keeps-read :
      (s : Sbft) (r : Result Crash A) (f : A → Method B)
      → r ≢ err Crash.out_of_fuel
      → ((a : A) → r ≡ ok a → Keeps R s (f a s))
      → Keeps R s (resume (r, s) f)
  Keeps-read s (ok a) f ne kf = kf a refl
  Keeps-read s (err e) f ne kf = record { stops = λ q. ground (arith, ne); holds = F.start s }
