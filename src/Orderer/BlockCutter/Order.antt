-- ===== src/Orderer/BlockCutter/Order.antt =====
-- The receiver loses no envelope that it takes, and keeps their order.
use mathlib.Core.List.{append-nil}
use fabric.Base.{
  ◌≡◌, refl, sym, Bool, true, false, Bool-cases, inl, inr, ◌⊎◌, ltb, length, List, [], ◌∷◌, ◌++◌,
  arith,
}
use fabric.Orderer.Filter.{Envelope, apply, Action, accept, reconfigure, reject, forward}
use fabric.Orderer.BlockCutter.{Context, Receiver, Batches, enqueue, before_config, act, ordered}

-- Batches one after another.
abbrev pub joined : Batches → List Envelope
joined [] = []
joined (b ∷ bs) = b ++ joined bs

-- The envelope that a call takes in, if it does.
abbrev pub taken : Envelope → Bool → List Envelope
taken msg true = msg ∷ []
taken msg false = []

-- What the call hands over and keeps is what the receiver had, and the envelope if it was taken.
abbrev pub Keeps : List Envelope → Envelope → (Batches × Bool) × Receiver → Type 0
Keeps had msg r = joined r.0.0 ++ r.1.cur_batch ≡ had ++ taken msg r.0.1

before_config-joined :
    (had : List Envelope) (msg : Envelope)
    → joined (before_config had msg) ++ [] ≡ had ++ (msg ∷ [])
unfolding before_config
before_config-joined [] msg = refl
before_config-joined (m ∷ ms) msg = append-nil _

enqueue-Keeps : (r : Receiver) (msg : Envelope) → Keeps r.cur_batch msg (enqueue r msg)
unfolding enqueue
enqueue-Keeps r msg =
    ground (
      arith,
      append-nil (r.cur_batch ++ (msg ∷ [])),
      append-nil ((r.cur_batch ++ (msg ∷ [])) ++ []),
    )

act-Keeps :
    (c : Context) (r : Receiver) (msg : Envelope) (a : Action)
    → Keeps r.cur_batch msg (act c r msg a)
unfolding act
act-Keeps c r msg accept = enqueue-Keeps r msg
act-Keeps c r msg reconfigure =
    ground (arith, before_config-joined r.cur_batch msg, append-nil r.cur_batch)
act-Keeps c r msg reject = sym (append-nil r.cur_batch)
act-Keeps c r msg forward = sym (append-nil r.cur_batch)

-- The batches that `ordered` hands over and the batch that it keeps are, one after another, the
-- envelopes that the receiver had, followed by the new one exactly if the call answers true.
pub ordered-Keeps :
    (c : Context) (r : Receiver) (msg : Envelope) → Keeps r.cur_batch msg (ordered c r msg)
unfolding ordered
ordered-Keeps c r msg = act-Keeps c r msg (apply c.filters msg).0

-- The three ways in which a call can go: nothing happens, the envelope is gathered, or what was
-- gathered is handed over.
abbrev pub Cases : Receiver → Envelope → (Batches × Bool) × Receiver → Type 0
Cases r msg out =
    (out ≡ (([], false), r))
    ⊎ (out ≡ (([], true), record r { cur_batch = r.cur_batch ++ (msg ∷ []) }))
    ⊎ ((b : List Envelope) × (bs : Batches) × (out ≡ ((b ∷ bs, true), record r { cur_batch = [] })))

act-Cases : (c : Context) (r : Receiver) (msg : Envelope) (a : Action) → Cases r msg (act c r msg a)
unfolding act enqueue
act-Cases c r msg accept =
    elim (Bool-cases (ltb (length (r.cur_batch ++ (msg ∷ []))) r.batch_size)) [
      | inl e ↦ rw e (inr (inl refl))
      | inr e ↦ rw e (inr (inr (r.cur_batch ++ (msg ∷ []), [], refl)))
    ]
act-Cases c r msg reconfigure = elim (Bool-cases (c.valid_config msg)) [
  | inl e ↦ rw e (inr (inr (handed r.cur_batch)))
  | inr e ↦ rw e (inl refl)
]
  where
    handed :
        (had : List Envelope)
        → (b : List Envelope) × (bs : Batches) × ◌≡◌ {A = (Batches × Bool) × Receiver}
            ((before_config had msg, true), record r { cur_batch = [] })
            ((b ∷ bs, true), record r { cur_batch = [] })
    handed [] = unfold before_config in (msg ∷ [], [], refl)
    handed (m ∷ ms) = unfold before_config in (m ∷ ms, (msg ∷ []) ∷ [], refl)
act-Cases c r msg reject = inl refl
act-Cases c r msg forward = inl refl

pub ordered-Cases : (c : Context) (r : Receiver) (msg : Envelope) → Cases r msg (ordered c r msg)
unfolding ordered
ordered-Cases c r msg = act-Cases c r msg (apply c.filters msg).0
