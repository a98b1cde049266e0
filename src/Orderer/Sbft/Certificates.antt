-- ===== src/Orderer/Sbft/Certificates.antt =====
-- orderer/sbft/simplebft: the votes that stand behind a commit and behind a checkpoint.
pub mod Start
pub mod Reach
use fabric.Base.{
  ℕ, ◌-◌, ◌≤◌, ◌≡◌, ◌≢◌, refl, subst, Bool-cases, inl, inr, ltb, sym, ◌∙◌, true, Option, none, some,
  List, [], ◌∷◌, ◌++◌, length, All, Result, ok, err, arith, get_elem?, nat_eq, Bytes, ◌==◌, bind_ok,
}
use fabric.Base.Proc.{resume}
use fabric.Base.Assoc.{Assoc, insert, Distinct, Distinct-insert}
use fabric.Orderer.Sbft.Messages.{Config, SeqView, Preprepare, Batch, Subject, Checkpoint, Msg}
use fabric.Orderer.Sbft.System.{System, Crash, no_faulty_quorum}
use fabric.Orderer.Sbft.State
use fabric.Orderer.Sbft.State.{Sbft, ReqInfo, ReplicaInfo, World, entries}
use fabric.Orderer.Sbft.Phases
use fabric.Orderer.Sbft.Backlog
use fabric.Orderer.Sbft.Backlog.{waiting}
use fabric.Orderer.Sbft.Replica
use fabric.Orderer.Sbft.Frame.{Frame, Keeps, fresh_cur}
use fabric.Orderer.Sbft.Frame.Replica.{receive-Keeps, fire-Keeps}
use fabric.Orderer.Sbft.Backlogs.{Waits, Waits-frame}
use fabric.Orderer.Sbft.Backlogs.Short.{record_backlog_msg-StayShort}

All-insert :
    {V : Type 0} (P : ℕ × V → Type 0) (k : ℕ) (v : V) (m : Assoc ℕ V)
    → P (k, v)
    → All P m
    → All P (insert k v m)
All-insert P k v [] p h = (p, tt)
All-insert P k v ((j, w) ∷ m) p (q, h) = ground (arith, All-insert P k v m)

length-insert-le : {V : Type 0} (k : ℕ) (v : V) (m : Assoc ℕ V) → length m ≤ length (insert k v m)
length-insert-le k v [] = omega arith
length-insert-le k v ((j, w) ∷ m) = ground (arith, length-insert-le k v m)

-- at least so many votes, in a replica that has accepted a preprepare
abbrev pub Enough : ℕ → Option (Assoc ℕ Subject) → Type 0
Enough quorum none = Unit
Enough quorum (some m) = quorum ≤ length m

Enough-entries : (q : ℕ) (o : Option (Assoc ℕ Subject)) → q ≤ length (entries o) → Enough q o
Enough-entries q none h = tt
Enough-entries q (some m) h = h

Enough-insert :
    (q src : ℕ) (p : Subject) (m : Assoc ℕ Subject)
    → Enough q (some m)
    → Enough q (some (insert src p m))
Enough-insert q src p m h = omega (arith, h, length-insert-le src p m)

-- The votes of `cur`: for each kind one from a replica, all for the current subject. The number 0
-- is what a new view leaves in `cur` when its old subject is given up.
pub record IsVoted (sys : System) (c : Config) (cur : ReqInfo) : Type 0 where
  pub once :
      Distinct (entries cur.prep)
      × Distinct (entries cur.commit)
      × Distinct (entries cur.checkpoint)
  pub prepares : cur.subject.seq.seq ≢ 0 → All (λ e. e.1 ≡ cur.subject) (entries cur.prep)
  pub commits : cur.subject.seq.seq ≢ 0 → All (λ e. e.1 ≡ cur.subject) (entries cur.commit)
  pub checkpoints :
      cur.subject.seq.seq ≢ 0 → All (λ e. e.1.seq ≡ cur.subject.seq.seq) (entries cur.checkpoint)
  pub signed : All (λ e. sys.check_sig e.1.digest e.0 e.1.signature ≡ true) (entries cur.checkpoint)
  pub prepared : cur.sent_commit ≡ true → Enough (no_faulty_quorum c - 1) cur.prep
  pub committed : cur.executed ≡ true → Enough (no_faulty_quorum c) cur.commit

module _ (sys : System) (c : Config) (cur : ReqInfo) (v : IsVoted sys c cur) where
  pub vote_prepare-IsVoted :
      (p : Subject) (src : ℕ) (m : Assoc ℕ Subject)
      → cur.prep ≡ some m
      → p ≡ cur.subject
      → IsVoted sys c record cur { prep = some (insert src p m) }
  vote_prepare-IsVoted p src m e q = record {
    once = (
      Distinct-insert src p m (subst (λ o. Distinct (entries o)) e v.once.0),
      v.once.1,
      v.once.2,
    );
    prepares = λ n.
        All-insert _ src p m q
          (subst (λ o. All (λ f. f.1 ≡ cur.subject) (entries o)) e (v.prepares n));
    commits = v.commits;
    checkpoints = v.checkpoints;
    signed = v.signed;
    prepared =
        λ t. Enough-insert _ src p m (subst (Enough (no_faulty_quorum c - 1)) e (v.prepared t));
    committed = v.committed;
  }

  pub vote_commit-IsVoted :
      (p : Subject) (src : ℕ) (m : Assoc ℕ Subject)
      → cur.commit ≡ some m
      → p ≡ cur.subject
      → IsVoted sys c record cur { commit = some (insert src p m) }
  vote_commit-IsVoted p src m e q = record {
    once = (
      v.once.0,
      Distinct-insert src p m (subst (λ o. Distinct (entries o)) e v.once.1),
      v.once.2,
    );
    prepares = v.prepares;
    commits = λ n.
        All-insert _ src p m q
          (subst (λ o. All (λ f. f.1 ≡ cur.subject) (entries o)) e (v.commits n));
    checkpoints = v.checkpoints;
    signed = v.signed;
    prepared = v.prepared;
    committed =
        λ t. Enough-insert _ src p m (subst (Enough (no_faulty_quorum c)) e (v.committed t));
  }

  pub vote_checkpoint-IsVoted :
      (k : Checkpoint) (src : ℕ) (m : Assoc ℕ Checkpoint)
      → cur.checkpoint ≡ some m
      → sys.check_sig k.digest src k.signature ≡ true
      → k.seq ≡ cur.subject.seq.seq
      → IsVoted sys c record cur { checkpoint = some (insert src k m) }
  vote_checkpoint-IsVoted k src m e good q = record {
    once = (
      v.once.0,
      v.once.1,
      Distinct-insert src k m (subst (λ o. Distinct (entries o)) e v.once.2),
    );
    prepares = v.prepares;
    commits = v.commits;
    checkpoints = λ n.
        All-insert _ src k m q
          (subst (λ o. All (λ f. f.1.seq ≡ cur.subject.seq.seq) (entries o)) e (v.checkpoints n));
    signed = All-insert _ src k m good (
        subst (λ o. All (λ f. sys.check_sig f.1.digest f.0 f.1.signature ≡ true) (entries o)) e
          v.signed);
    prepared = v.prepared;
    committed = v.committed;
  }

  pub send_commit-IsVoted :
      no_faulty_quorum c - 1 ≤ length (entries cur.prep)
      → IsVoted sys c record cur { sent_commit = true }
  send_commit-IsVoted h = record {
    once = v.once;
    prepares = v.prepares;
    commits = v.commits;
    checkpoints = v.checkpoints;
    signed = v.signed;
    prepared = λ t. Enough-entries _ cur.prep h;
    committed = v.committed;
  }

  pub execute-IsVoted :
      no_faulty_quorum c ≤ length (entries cur.commit)
      → IsVoted sys c record cur { executed = true }
  execute-IsVoted h = record {
    once = v.once;
    prepares = v.prepares;
    commits = v.commits;
    checkpoints = v.checkpoints;
    signed = v.signed;
    prepared = v.prepared;
    committed = λ t. Enough-entries _ cur.commit h;
  }

  pub complete-IsVoted : IsVoted sys c record cur { checkpoint_done = true }
  complete-IsVoted = record {
    once = v.once;
    prepares = v.prepares;
    commits = v.commits;
    checkpoints = v.checkpoints;
    signed = v.signed;
    prepared = v.prepared;
    committed = v.committed;
  }

  pub acquiesce-IsVoted :
      IsVoted sys c
        record cur { subject = record cur.subject { seq = record cur.subject.seq { seq = 0 } } }
  acquiesce-IsVoted = record {
    once = v.once;
    prepares = λ n. elim (n refl) [ ];
    commits = λ n. elim (n refl) [ ];
    checkpoints = λ n. elim (n refl) [ ];
    signed = v.signed;
    prepared = v.prepared;
    committed = v.committed;
  }

pub fresh_cur-IsVoted :
    (sys : System) (c : Config) (seq : SeqView) (digest : Bytes) (timeout : Option ℕ) (b : Batch)
    → IsVoted sys c (fresh_cur seq digest timeout b)
fresh_cur-IsVoted sys c seq digest timeout b = record {
  once = (tt, tt, tt);
  prepares = λ n. tt;
  commits = λ n. tt;
  checkpoints = λ n. tt;
  signed = tt;
  prepared = λ t. cc t;
  committed = λ t. cc t;
}
