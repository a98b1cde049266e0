-- ===== src/Orderer/Sbft/System.antt =====
-- orderer/sbft/simplebft: what a replica asks of its surroundings (the interface `System` of
-- simplebft.go, the hash, and the readers and writers of the messages that are hashed or signed),
-- and the checks of a batch (batch.go, crypto.go).
use fabric.Base.{
  ℕ, ◌+◌, ◌-◌, ◌%◌, ◌^◌, ltb, Bool, true, if◌then◌else◌, not, ◌&&◌, is_none, ◌==◌, nat_eq, list_eq,
  option_eq, Option, none, some, List, [], ◌∷◌, Bytes, length, Result, ok, err,
}
use fabric.Base.Assoc.{Assoc}
use fabric.Orderer.Sbft.Messages.{Config, BatchHeader, Batch, Signed, ViewChange}
use fabric.Orderer.Sbft.Merkle.{merkle_hash_data}

-- `recall old batch` is what `LastBatch` returns after `Deliver(batch)`, where it was `old`.
pub record System : Type 0 where
  pub hash : Bytes → Bytes
  pub sign : Bytes → Bytes
  pub check_sig : Bytes → ℕ → Bytes → Bool
  pub read_header : Bytes → Option BatchHeader
  pub write_header : BatchHeader → Bytes
  pub read_view_change : Bytes → Option ViewChange
  pub write_view_change : ViewChange → Bytes
  pub recall : Batch → Batch → Batch

-- where the code panics, and the model when it has no fuel
pub data Crash : Type 0 where
  index_out_of_range nil_map nil_pointer bad_header own_backlog invalid_new_view : Crash
  state_mismatch out_of_fuel : Crash

-- the errors of `checkBatch` and `checkSig`
pub data BatchError : Type 0 where
  unreadable invalid_hash few_signatures bad_signature wrong_view : BatchError

unfoldable pub no_faulty_quorum : Config → ℕ
no_faulty_quorum c = (c.n + 2 ^ 64 - c.f) % 2 ^ 64

unfoldable pub one_correct_quorum : Config → ℕ
one_correct_quorum c = (c.f + 1) % 2 ^ 64

module _ (sys : System) where
  open sys use {
    hash, sign, check_sig, read_header, write_header, read_view_change, write_view_change,
  }

  abbrev pub batch_hash : Batch → Bytes
  batch_hash b = hash b.header

  unfoldable pub decode_header : Batch → Result Crash BatchHeader
  decode_header b = elim (read_header b.header) [ none ↦ err bad_header | some h ↦ ok h ]

  unfoldable pub make_batch : ℕ → Bytes → List Bytes → Batch
  make_batch seq prev payloads = record {
    header =
        write_header
          record { seq = seq; prev_hash = some prev; data_hash = merkle_hash_data hash payloads };
    payloads = payloads;
    signatures = [];
  }

  unfoldable pub check_signatures : Bytes → Assoc ℕ Bytes → Bool
  check_signatures digest [] = true
  check_signatures digest ((r, sig) ∷ sigs) = check_sig digest r sig && check_signatures digest sigs

  unfoldable pub check_header :
      Config → Batch → Bool → Bool → BatchHeader → Result BatchError BatchHeader
  unfolding one_correct_quorum check_signatures
  check_header c b check_data need_sigs h =
      if check_data && not (merkle_hash_data hash b.payloads == h.data_hash)
      then err invalid_hash
      else if not (is_none h.prev_hash)
          && (need_sigs && ltb (length b.signatures) (one_correct_quorum c))
      then err few_signatures
      else if check_signatures (batch_hash b) b.signatures
      then ok h
      else err bad_signature

  unfoldable pub check_batch : Config → Batch → Bool → Bool → Result BatchError BatchHeader
  unfolding check_header
  check_batch c b check_data need_sigs = elim (read_header b.header) [
    | none ↦ err unreadable
    | some h ↦ check_header c b check_data need_sigs h
  ]

  unfoldable pub sign_view_change : ViewChange → Signed
  sign_view_change vc =
      let bytes = write_view_change vc in record { content = bytes; signature = sign bytes }

  unfoldable pub check_view_change : Signed → ℕ → Result BatchError ViewChange
  check_view_change svc signer =
      if check_sig svc.content signer svc.signature
      then elim (read_view_change svc.content) [ none ↦ err unreadable | some vc ↦ ok vc ]
      else err bad_signature
