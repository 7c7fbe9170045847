-- ===== src/Base/Attempt.antt =====
-- Code that returns a `Result` and may panic; `>>=` is what `?` and `;` do.
use mania.Base.Fault.{Fault, done, panic, Result, ok, err}
use mania.Base.Fault

abbrev pub Attempt {ℓ κ} : Type ℓ → Type κ → Type (ℓ ⊔ κ)
Attempt E A = Fault (Result E A)

module _ {ℓ κ μ} {E : Type ℓ} {A : Type κ} {B : Type μ} where
  -- What comes behind a `?`.
  abbrev pub after : (A → Attempt E B) → Result E A → Attempt E B
  after f (ok a) = f a
  after f (err e) = done (err e)

  abbrev pub ◌>>=◌ : Attempt E A → (A → Attempt E B) → Attempt E B
  ◌>>=◌ m f = Fault.◌>>=◌ m (after f)

  abbrev pub ◌>>◌ : Attempt E A → Attempt E B → Attempt E B
  ◌>>◌ m k = ◌>>=◌ m λ _. k

infixl 5 ◌>>=◌ ◌>>◌
module _ {ℓ κ} {E : Type ℓ} {A : Type κ} where
  abbrev pub pure : A → Attempt E A
  pure a = done (ok a)

  abbrev pub fail : E → Attempt E A
  fail e = done (err e)

  -- A call that returns no `Result`.
  abbrev pub call : Fault A → Attempt E A
  call m = Fault.◌>>=◌ m λ a. done (ok a)
