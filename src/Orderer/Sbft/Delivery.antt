-- ===== src/Orderer/Sbft/Delivery.antt =====
-- orderer/sbft/simplebft/checkpoint.go: when a batch is delivered, and with which signatures.
use fabric.Base.{
  ℕ, ◌≡◌, refl, sym, ap, subst, ◌∙◌, Bool, true, Bool-cases, inl, inr, ◌⊎◌, ◌==◌, ==_iff, nat_eq,
  list_eq, not, ◌||◌, ltb, Option, none, some, List, [], ◌∷◌, ◌++◌, Bytes, length, Result, arith,
  ◌≤◌,
}
use fabric.Base.Assoc.{Assoc, lookup, insert, Distinct}
use fabric.Base.Proc.{◌>>◌}
use fabric.Orderer.Sbft.Messages.{Batch, Checkpoint}
use fabric.Orderer.Sbft.System.{System, Crash, one_correct_quorum}
use fabric.Orderer.Sbft.State
use fabric.Orderer.Sbft.State.{Sbft, Method, entries}
use fabric.Orderer.Sbft.Phases.{maybe_send_next_batch}
use fabric.Orderer.Sbft.Checkpoints
use fabric.Orderer.Sbft.Frame.Handlers.{not-false}
use fabric.Orderer.Sbft.Frame.Votes.{or_false}
use fabric.Orderer.Sbft.Certificates.{IsVoted, vote_checkpoint-IsVoted}
use fabric.Orderer.Sbft.Quorums.{
  sources, Weak, tally-Weak, Found, Distinct-Found, IsProof, AreSigned, cpset-IsProof,
}

-- The batch that was accepted is delivered with a proof, from `s` to `after`, where the replica
-- goes on with its next batch and its backlog.
pub record IsDelivery (sys : System) (again : Method (Unit {0})) (s : Sbft)
    (out : Result Crash (Unit {0}) × Sbft) : Type 0 where
  pub batch : Batch
  pub sigs : Assoc ℕ Bytes
  pub after : Sbft
  pub offered : s.cur.preprep ≡ some batch
  pub proof : IsProof sys (one_correct_quorum s.config) s.cur.subject.digest sigs
  pub delivered :
      after.world.delivered ≡ (s.world.delivered ++ (record batch { signatures = sigs } ∷ []))
  pub rest : out ≡ (maybe_send_next_batch sys >> again) after

abbrev pub Delivers :
    (sys : System) → Method (Unit {0}) → Sbft → Result Crash (Unit {0}) × Sbft → Type 0
Delivers sys again s out = (out.1.world.delivered ≡ s.world.delivered) ⊎ IsDelivery sys again s out

cancel-delivered :
    (o : Option ℕ) (s : Sbft) → (State.cancel o s).world.delivered ≡ s.world.delivered
unfolding State.cancel
cancel-delivered none s = refl
cancel-delivered (some t) s = refl

first-digest :
    (d : Bytes) (cs ws : Assoc ℕ Checkpoint) (r : ℕ) (rs : List ℕ) (c : Checkpoint)
    → Found cs ws
    → (r ∷ rs) ≡ sources d ws
    → lookup r cs ≡ some c
    → c.digest ≡ d
unfolding Found sources
first-digest d cs [] r rs c h e l = cc e
first-digest d cs ((j, k) ∷ ws) r rs c (f, h) e l = elim (Bool-cases (k.digest == d)) [
  | inl t ↦
      let same : r ≡ j = cc (rw t at e) in
      let both : some k ≡ some c = sym f ∙ (ap (λ x. lookup x cs) (sym same) ∙ l) in
      let p : k ≡ c = cc both in ap (λ (x : Checkpoint). x.digest) (sym p) ∙ (==_iff k.digest d).0 t
  | inr t ↦ first-digest d cs ws r rs c h (rw t at e) l
]

module _ (sys : System) (again : Method (Unit {0})) where
  complete-Delivers :
      (s : Sbft) (sigs : Assoc ℕ Bytes) (o : Option Batch)
      → s.cur.preprep ≡ o
      → IsProof sys (one_correct_quorum s.config) s.cur.subject.digest sigs
      → Delivers sys again s (Checkpoints.complete sys again sigs o s)
  unfolding Checkpoints.complete State.deliver_batch
  complete-Delivers s sigs none e p = inl refl
  complete-Delivers s sigs (some b) e p = inr record {
    batch = b;
    sigs = sigs;
    after = State.cancel s.cur.timeout t;
    offered = e;
    proof = p;
    delivered = cancel-delivered s.cur.timeout t;
    rest = refl;
  }
    where
      t : Sbft
      t = State.deliver_batch sys record b { signatures = sigs } s

  done-Delivers :
      (s t : Sbft) (out : Result Crash (Unit {0}) × Sbft)
      → t.cur.preprep ≡ s.cur.preprep
      → t.config ≡ s.config
      → t.cur.subject ≡ s.cur.subject
      → t.world ≡ s.world
      → Delivers sys again t out
      → Delivers sys again s out
  done-Delivers s t out p c j w (inl e) = inl (e ∙ ap (λ (x : State.World). x.delivered) w)
  done-Delivers s t out p c j w (inr d) = inr record {
    batch = d.batch;
    sigs = d.sigs;
    after = d.after;
    offered = sym p ∙ d.offered;
    proof = rw (sym c, sym j) d.proof;
    delivered = rw (sym w) d.delivered;
    rest = d.rest;
  }

  finish_at-Delivers :
      (s : Sbft) (sigs : Assoc ℕ Bytes) (c : Checkpoint)
      → IsProof sys (one_correct_quorum s.config) c.digest sigs
      → Delivers sys again s (Checkpoints.finish_at sys again sigs c s)
  unfolding Checkpoints.finish_at
  finish_at-Delivers s sigs c p = elim (Bool-cases (c.digest == s.cur.subject.digest)) [
    | inl e ↦ rw e (
        done-Delivers s t _ refl refl refl refl (
          complete-Delivers t sigs t.cur.preprep refl (
            subst (λ x. IsProof sys (one_correct_quorum s.config) x sigs)
              ((==_iff c.digest s.cur.subject.digest).0 e) p)))
    | inr e ↦ rw e (inl refl)
  ]
    where
      t : Sbft
      t = record s { cur = record s.cur { checkpoint_done = true } }

  finish_found-Delivers :
      (s : Sbft) (sigs : Assoc ℕ Bytes) (o : Option Checkpoint)
      → ((c : Checkpoint) → o ≡ some c → IsProof sys (one_correct_quorum s.config) c.digest sigs)
      → Delivers sys again s (Checkpoints.finish_found sys again sigs o s)
  unfolding Checkpoints.finish_found
  finish_found-Delivers s sigs none p = inl refl
  finish_found-Delivers s sigs (some c) p = finish_at-Delivers s sigs c (p c refl)

  weak-IsProof :
      (quorum : ℕ) (cs : Assoc ℕ Checkpoint) (d : Bytes) (rs : List ℕ)
      → Distinct cs
      → AreSigned sys cs
      → rs ≡ sources d cs
      → quorum ≤ length (sources d cs)
      → IsProof sys quorum d (Checkpoints.cpset cs rs)
  weak-IsProof quorum cs d rs n g e l =
      let p = cpset-IsProof sys d cs cs (Distinct-Found cs n) n g in
      rw e record { many = omega (arith, l, p.many); distinct = p.distinct; valid = p.valid }

  finish-Delivers :
      (s : Sbft) (cs : Assoc ℕ Checkpoint) (rs : List ℕ)
      → Distinct cs
      → AreSigned sys cs
      → Weak (one_correct_quorum s.config) cs rs
      → Delivers sys again s (Checkpoints.finish_weak sys again cs rs s)
  unfolding Checkpoints.finish_weak Weak
  finish-Delivers s cs [] n g w = inl refl
  finish-Delivers s cs (r ∷ rs) n g (inl e) = cc e
  finish-Delivers s cs (r ∷ rs) n g (inr (d, e, l)) = finish_found-Delivers s _ (lookup r cs) λ c h.
      subst (λ x. IsProof sys (one_correct_quorum s.config) x (Checkpoints.cpset cs (r ∷ rs)))
        (sym (first-digest d cs cs r rs c (Distinct-Found cs n) e h))
        (weak-IsProof (one_correct_quorum s.config) cs d (r ∷ rs) n g e l)

  add_checkpoint-Delivers :
      (c : Checkpoint) (src : ℕ) (s : Sbft) (o : Option (Assoc ℕ Checkpoint))
      → s.cur.checkpoint ≡ o
      → sys.check_sig c.digest src c.signature ≡ true
      → c.seq ≡ s.cur.subject.seq.seq
      → IsVoted sys s.config s.cur
      → Delivers sys again s (Checkpoints.add_checkpoint sys again c src o s)
  unfolding Checkpoints.add_checkpoint AreSigned
  add_checkpoint-Delivers c src s none e g q v = inl refl
  add_checkpoint-Delivers c src s (some m) e g q v =
      let w = vote_checkpoint-IsVoted sys s.config s.cur v c src m e g q in
      done-Delivers s t _ refl refl refl refl
        (finish-Delivers t cs _ w.once.2 w.signed (tally-Weak (one_correct_quorum s.config) cs))
    where
      cs : Assoc ℕ Checkpoint
      cs = insert src c m

      t : Sbft
      t = record s { cur = record s.cur { checkpoint = some cs } }

  -- Take a replica whose votes are in order (`IsVoted`). On a checkpoint message it either delivers
  -- nothing, or it delivers the batch of the preprepare that it accepted, with valid signatures over
  -- the digest of the current subject from f+1 different replicas, and goes on with its next batch
  -- and its backlog.
  pub handle_checkpoint-Delivers :
      (c : Checkpoint) (src : ℕ) (s : Sbft)
      → IsVoted sys s.config s.cur
      → Delivers sys again s (Checkpoints.handle_checkpoint sys again c src s)
  unfolding Checkpoints.handle_checkpoint
  handle_checkpoint-Delivers c src s v =
      elim (Bool-cases (s.cur.checkpoint_done || ltb c.seq s.cur.subject.seq.seq)) [
        | inl e ↦ rw e (inl refl)
        | inr e ↦ elim (Bool-cases bad) [
          | inl q ↦ rw (e, q) (inl refl)
          | inr q ↦
              rw (e, q)
                (add_checkpoint-Delivers c src s s.cur.checkpoint refl (ground (arith, q))
                  ((==_iff c.seq s.cur.subject.seq.seq).0
                    (not-false _ (or_false (not (sys.check_sig c.digest src c.signature)) _ q)))
                  v)
        ]
      ]
    where
      bad : Bool
      bad = not (sys.check_sig c.digest src c.signature) || not (c.seq == s.cur.subject.seq.seq)
