-- ===== src/Orderer/BlockCutter.antt =====
-- orderer/common/blockcutter/blockcutter.go: envelopes are gathered into batches.
pub mod Order
pub mod Bounds
use fabric.Base.{ℕ, ◌≡◌, Bool, true, false, if◌then◌else◌, ltb, List, [], ◌∷◌, ◌++◌, length}
use fabric.Orderer.Filter.{Envelope, Action, accept, reconfigure, reject, forward, Rule, apply}

abbrev pub is_empty {ℓ} : {A : Type ℓ} → List A → Bool
is_empty [] = true
is_empty (x ∷ xs) = false

-- What the receiver is given from outside at a call: the rules, and whether the configuration that
-- an envelope holds can be read and is valid for the configuration manager.
pub record Context : Type 0 where
  pub filters : List Rule
  pub valid_config : Envelope → Bool

-- The current batch is nil exactly if it is empty.
pub record Receiver : Type 0 where
  pub batch_size : ℕ
  pub cur_batch : List Envelope

abbrev pub Batches : Type 0
Batches = List (List Envelope)

abbrev pub new_receiver : ℕ → Receiver
new_receiver batch_size = record { batch_size = batch_size; cur_batch = [] }

-- `batch_size` is an unsigned number of the configuration.
enqueue : Receiver → Envelope → (Batches × Bool) × Receiver
enqueue r msg =
    let batch = r.cur_batch ++ (msg ∷ []) in
    if ltb (length batch) r.batch_size
    then (([], true), record r { cur_batch = batch })
    else ((batch ∷ [], true), record r { cur_batch = [] })

before_config : List Envelope → Envelope → Batches
before_config [] msg = (msg ∷ []) ∷ []
before_config (m ∷ ms) msg = (m ∷ ms) ∷ (msg ∷ []) ∷ []

act : Context → Receiver → Envelope → Action → (Batches × Bool) × Receiver
unfolding enqueue before_config
act c r msg accept = enqueue r msg
act c r msg reconfigure =
    if c.valid_config msg
    then ((before_config r.cur_batch msg, true), record r { cur_batch = [] })
    else (([], false), r)
act c r msg reject = (([], false), r)
act c r msg forward = (([], false), r)

unfoldable pub ordered : Context → Receiver → Envelope → (Batches × Bool) × Receiver
unfolding act
ordered c r msg = act c r msg (apply c.filters msg).0

unfoldable pub cut : Receiver → List Envelope × Receiver
cut r = (r.cur_batch, record r { cur_batch = [] })
