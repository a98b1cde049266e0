-- ===== src/Gossip/PayloadsBuffer/Order.antt =====
-- What a buffer holds before and after a call.
use mathlib.Core.List.{Perm, append-nil}
use mathlib.Core.List.Perm as Perm
use fabric.Base.{
  ℕ, ◌≤◌, ◌+◌, ◌%◌, ◌^◌, ◌≡◌, refl, sym, if◌then◌else◌, Bool-cases, ◌==◌, nat_eq, nat_beq_iff, ltb,
  ◌||◌, is_none, not, Option, none, some, Option-cases, inl, inr, ◌⊎◌, List, [], ◌∷◌, ◌++◌, map,
  Result, ok, err, arith,
}
use fabric.Base.Assoc.{
  Assoc, lookup, insert, remove, Distinct, Distinct-insert, Distinct-remove, remove-Fresh,
  lookup-insert, lookup-remove,
}
use fabric.Gossip.PayloadsBuffer.{Payload, PayloadsBuffer, already_processed, push, pop}

abbrev pub held : Assoc ℕ Payload → List Payload
held = map (λ e. e.1)

-- Each payload is under its own number, which is not below the next one.
pub record IsWf (b : PayloadsBuffer) : Type 0 where
  pub distinct : Distinct b.buf
  pub keyed : (k : ℕ) (p : Payload) → lookup k b.buf ≡ some p → (p.seq_num ≡ k) × (b.next ≤ k)

-- the payload that a call took in
abbrev pub accepted {ℓ} : {E : Type 0} {A : Type ℓ} → Payload → Result E A → List Payload
accepted p (ok a) = p ∷ []
accepted p (err e) = []

held-insert :
    (k : ℕ) (p : Payload) (m : Assoc ℕ Payload)
    → lookup k m ≡ none
    → held (insert k p m) ≡ held m ++ (p ∷ [])
held-insert k p [] h = refl
held-insert k p ((j, w) ∷ m) h = ground (arith, held-insert k p m)

held-remove :
    (k : ℕ) (p : Payload) (m : Assoc ℕ Payload)
    → Distinct m
    → lookup k m ≡ some p
    → Perm (held m) (p ∷ held (remove k m))
held-remove k p [] d h = cc h
held-remove k p ((j, w) ∷ m) d h = elim (Bool-cases (j == k)) [
  | inl e ↦
      let gone = remove-Fresh k m (rw ((nat_beq_iff j k).0 e) at d.0) in
      let first : w ≡ p = ground (arith, e, h) in rw (e, gone, first) (Perm.refl (p ∷ held m))
  | inr e ↦
      let later : lookup k m ≡ some p = ground (arith, e, h) in
      rw e
        (Perm.trans (Perm.cons w (held-remove k p m d.1 later)) (Perm.swap p w (held (remove k m))))
]

-- the buffer after a payload is taken in
abbrev pub with_payload : Payload → PayloadsBuffer → PayloadsBuffer
with_payload p b = record b {
  buf = insert p.seq_num p b.buf;
  signals = if p.seq_num == b.next then b.signals + 1 else b.signals;
}

-- the buffer after the next payload is taken out
abbrev pub without_next : PayloadsBuffer → PayloadsBuffer
without_next b = record b { buf = remove b.next b.buf; next = (b.next + 1) % 2 ^ 64 }

pub push_cases :
    (p : Payload) (b : PayloadsBuffer)
    → (push p b ≡ (err already_processed, b))
      ⊎ ((lookup p.seq_num b.buf ≡ none)
          × (b.next ≤ p.seq_num)
          × (push p b ≡ (ok tt, with_payload p b)))
unfolding push
push_cases p b =
    elim (Bool-cases (ltb p.seq_num b.next || not (is_none (lookup p.seq_num b.buf)))) [
      | inl e ↦ rw e (inl refl)
      | inr e ↦ rw e (inr (ground (arith, e), ground (arith, e), refl))
    ]

pub pop_cases :
    (b : PayloadsBuffer)
    → ((lookup b.next b.buf ≡ none) × (pop b ≡ (none, b)))
      ⊎ ((p : Payload) × (lookup b.next b.buf ≡ some p) × (pop b ≡ (some p, without_next b)))
unfolding pop
pop_cases b = elim (Option-cases (lookup b.next b.buf)) [
  | inl e ↦ inl (e, rw (pop, e) refl)
  | inr (p, e) ↦ inr (p, e, rw (pop, e) refl)
]

pub push-IsWf : (p : Payload) (b : PayloadsBuffer) → IsWf b → IsWf (push p b).1
push-IsWf p b wf = elim (push_cases p b) [
  | inl e ↦ rw e wf
  | inr (missing, late, e) ↦ rw e (record {
    distinct = Distinct-insert p.seq_num p b.buf wf.distinct;
    keyed = λ k q h.
        ground (
          arith,
          lookup-insert p.seq_num k p b.buf,
          nat_beq_iff p.seq_num k,
          wf.keyed k q,
          h,
          late,
        );
  })
]

pub pop-IsWf : (b : PayloadsBuffer) → IsWf b → IsWf (pop b).1
pop-IsWf b wf = elim (pop_cases b) [
  | inl (absent, e) ↦ rw e wf
  | inr (p, found, e) ↦ rw e (record {
    distinct = Distinct-remove b.next b.buf wf.distinct;
    keyed = λ k q h.
        ground (arith, lookup-remove b.next k b.buf, nat_beq_iff b.next k, wf.keyed k q, h);
  })
]

-- What a buffer holds after `Push` is what it held, and the payload exactly if it was accepted.
pub held-push :
    (p : Payload) (b : PayloadsBuffer)
    → held (push p b).1.buf ≡ held b.buf ++ accepted p (push p b).0
held-push p b = elim (push_cases p b) [
  | inl e ↦ rw e (sym (append-nil (held b.buf)))
  | inr (missing, late, e) ↦ rw e (held-insert p.seq_num p b.buf missing)
]

-- what a call hands out
abbrev pub handed {ℓ} : {A : Type ℓ} → Option A → List A
handed none = []
handed (some a) = a ∷ []

pub held-pop :
    (b : PayloadsBuffer) → IsWf b → Perm (held b.buf) (handed (pop b).0 ++ held (pop b).1.buf)
held-pop b wf = elim (pop_cases b) [
  | inl (absent, e) ↦ rw e (Perm.refl (held b.buf))
  | inr (p, found, e) ↦ rw e (held-remove b.next p b.buf wf.distinct found)
]
