-- ===== src/Orderer/Sbft/Messages.antt =====
-- orderer/sbft/simplebft/simplebft.proto: the messages of the replicas. A message that the code
-- uses without a test for nil is a value; one that it tests is an option.
use fabric.Base.{
  ℕ, ◌≡◌, ◌↔◌, Bool, true, ◌&&◌, ◌==◌, ==_iff, Eq, by_iff, nat_eq, list_eq, Option, Bytes, List,
  arith,
}
use fabric.Base.Assoc.{Assoc}

pub record Config : Type 0 where
  pub n : ℕ
  pub f : ℕ
  pub batch_duration_nsec : ℕ
  pub batch_size_bytes : ℕ
  pub request_timeout_nsec : ℕ

pub record SeqView : Type 0 where
  pub view : ℕ
  pub seq : ℕ

pub record BatchHeader : Type 0 where
  pub seq : ℕ
  pub prev_hash : Option Bytes
  pub data_hash : Option Bytes

pub record Batch : Type 0 where
  pub header : Bytes
  pub payloads : List Bytes
  pub signatures : Assoc ℕ Bytes

pub record Preprepare : Type 0 where
  pub seq : SeqView
  pub batch : Option Batch

pub record Subject : Type 0 where
  pub seq : SeqView
  pub digest : Bytes

pub record ViewChange : Type 0 where
  pub view : ℕ
  pub pset : List Subject
  pub qset : List Subject
  pub checkpoint : Batch

pub record Signed : Type 0 where
  pub content : Bytes
  pub signature : Bytes

pub record NewView : Type 0 where
  pub view : ℕ
  pub vset : Assoc ℕ Signed
  pub xset : Option Subject
  pub batch : Option Batch

pub record Checkpoint : Type 0 where
  pub seq : ℕ
  pub digest : Bytes
  pub signature : Bytes

pub record Hello : Type 0 where
  pub batch : Batch
  pub new_view : Option NewView

pub data Msg : Type 0 where
  request : Bytes → Msg
  preprepare : Preprepare → Msg
  prepare commit : Subject → Msg
  view_change : Signed → Msg
  new_view : NewView → Msg
  checkpoint : Checkpoint → Msg
  hello : Hello → Msg

abbrev pub seq_view_beq : SeqView → SeqView → Bool
seq_view_beq a b = a.view == b.view && a.seq == b.seq

pub seq_view_beq_iff : (a b : SeqView) → (seq_view_beq a b ≡ true) ↔ (a ≡ b)
seq_view_beq_iff a b = ground (arith, ==_iff a.view b.view, ==_iff a.seq b.seq)

instance abbrev pub seq_view_eq : Eq SeqView
seq_view_eq = by_iff seq_view_beq seq_view_beq_iff

abbrev pub subject_beq : Subject → Subject → Bool
subject_beq a b = a.seq == b.seq && a.digest == b.digest

pub subject_beq_iff : (a b : Subject) → (subject_beq a b ≡ true) ↔ (a ≡ b)
subject_beq_iff a b = ground (arith, ==_iff a.seq b.seq, ==_iff a.digest b.digest)

instance abbrev pub subject_eq : Eq Subject
subject_eq = by_iff subject_beq subject_beq_iff
