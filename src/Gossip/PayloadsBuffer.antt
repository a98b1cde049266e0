-- ===== src/Gossip/PayloadsBuffer.antt =====
-- gossip/state/payloads_buffer.go: payloads that came early wait for their turn. The mutex makes each
-- method one step.
pub mod Order
use fabric.Base.{
  ℕ, ◌+◌, ◌%◌, ◌^◌, Bool, true, false, if◌then◌else◌, ltb, ◌==◌, ◌||◌, nat_eq, is_none, not, Option,
  none, some, Bytes, List, [], ◌∷◌, length, Result, ok, err,
}
use fabric.Base.Assoc.{Assoc, lookup, insert, remove}
use fabric.Base.Proc.{Proc}

pub record Payload : Type 0 where
  pub seq_num : ℕ
  pub hash : Bytes
  pub contents : Bytes

-- `signals` counts the goroutines that wait to send on `readyChan`.
pub record PayloadsBuffer : Type 0 where
  pub buf : Assoc ℕ Payload
  pub next : ℕ
  pub signals : ℕ

pub data PushError : Type 0 where
  already_processed : PushError

abbrev pub new_payloads_buffer : ℕ → PayloadsBuffer
new_payloads_buffer next = record { buf = []; next = next; signals = 0 }

unfoldable pub push : Payload → Proc PayloadsBuffer PushError (Unit {0})
push payload b =
    if ltb payload.seq_num b.next || not (is_none (lookup payload.seq_num b.buf))
    then (err already_processed, b)
    else (
      ok tt,
      record b {
        buf = insert payload.seq_num payload b.buf;
        signals = if payload.seq_num == b.next then b.signals + 1 else b.signals;
      },
    )

-- `next` is a `uint64`.
unfoldable pub pop : PayloadsBuffer → Option Payload × PayloadsBuffer
pop b = elim (lookup b.next b.buf) [
  | none ↦ (none, b)
  | some payload ↦
      (some payload, record b { buf = remove b.next b.buf; next = (b.next + 1) % 2 ^ 64 })
]

unfoldable pub size : PayloadsBuffer → ℕ
size b = length b.buf
