-- ===== src/Ledger/Database.antt =====
-- core/ledger/util/db/db.go over github.com/syndtr/goleveldb, which is not the repository's. The
-- store is a parameter: its contents, what a read returns, and what a batch of puts does.
use fabric.Base.{
  Bytes, List, [], ◌∷◌, ◌≡◌, Option, some, Result, ok, if◌then◌else◌, ◌==◌, nat_eq, list_eq,
}

pub data DbError : Type 0 where
  io_failure : DbError

-- What a key holds after the puts of a batch, made in their order.
abbrev pub after_puts : List (Bytes × Bytes) → Bytes → Option Bytes → Option Bytes
after_puts [] k v = v
after_puts ((j, w) ∷ batch) k v = after_puts batch k (if j == k then some w else v)

pub record Database : Type 1 where
  pub Store : Type 0
  -- `DB.Get`: a missing key is no error, and has no value
  pub get : Store → Bytes → Result DbError (Option Bytes)
  -- `DB.WriteBatch`: all of the puts, or none of them
  pub write_batch : Store → List (Bytes × Bytes) → Result DbError Store
  -- `DB.GetIterator`: the entries from the first key up to the second, which is left out; an absent
  -- bound is no bound
  pub entries : Store → Option Bytes → Option Bytes → List (Bytes × Bytes)
  pub get-write_batch :
      (s t : Store) (batch : List (Bytes × Bytes)) (k : Bytes) (v w : Option Bytes)
      → write_batch s batch ≡ ok t
      → get s k ≡ ok v
      → get t k ≡ ok w
      → w ≡ after_puts batch k v
