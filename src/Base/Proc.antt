-- ===== src/Base/Proc.antt =====
-- Methods that change an object and may fail. What was changed before the failure stays changed.
use mathlib.Core.Path.{◌≡◌, refl}
use fabric.Base.Results.{Result, ok, err}

abbrev pub Proc {ℓ} : Type 0 → Type 0 → Type ℓ → Type ℓ
Proc S E A = S → Result E A × S

module _ {ℓ} {S E : Type 0} {A : Type ℓ} where
  abbrev pub pure : A → Proc S E A
  pure a s = (ok a, s)

  abbrev pub lift : Result E A → Proc S E A
  lift r s = (r, s)

  abbrev pub resume {κ} : {B : Type κ} → Result E A × S → (A → Proc S E B) → Result E B × S
  resume (ok a, s) f = f a s
  resume (err e, s) f = (err e, s)

  infixl 5 ◌>>=◌ ◌>>◌
  abbrev pub ◌>>=◌ {κ} : {B : Type κ} → Proc S E A → (A → Proc S E B) → Proc S E B
  ◌>>=◌ m f s = resume (m s) f

  abbrev pub ◌>>◌ {κ} : {B : Type κ} → Proc S E A → Proc S E B → Proc S E B
  m >> k = m >>= λ _. k

  pub resume_ok {κ} :
      {B : Type κ} (out : Result E A × S) (f : A → Proc S E B) (b : B)
      → (resume out f).0 ≡ ok b
      → (a : A) × (out.0 ≡ ok a) × ((f a out.1).0 ≡ ok b)
  resume_ok (ok a, s) f b h = (a, refl, h)
  resume_ok (err e, s) f b h = cc h
