-- ===== src/Login/Step.antt =====
-- Code that reads and replaces the fields of a `Context`, returns a `Result` and may panic.
pub mod Errors
pub mod Ensures
use mania.Base.Fault.{Fault, done, panic, Result, ok, err}
use mania.Base.Fault
use mania.Context.{Context}
use mania.Event.{EventError, Outcome}

abbrev pub Step {ℓ} : Type ℓ → Type ℓ
Step A = Context → Fault (Result EventError A × Context)

-- What comes behind a `?`: nothing more is stored after an error.
abbrev pub after {ℓ κ} :
    {A : Type ℓ} {B : Type κ}
    → (A → Step B)
    → Result EventError A × Context
    → Fault (Result EventError B × Context)
after f (ok a, ctx) = f a ctx
after f (err e, ctx) = done (err e, ctx)

infixl 5 ◌>>=◌ ◌>>◌
abbrev pub ◌>>=◌ {ℓ κ} : {A : Type ℓ} {B : Type κ} → Step A → (A → Step B) → Step B
◌>>=◌ m f ctx = Fault.◌>>=◌ (m ctx) (after f)

abbrev pub ◌>>◌ {ℓ κ} : {A : Type ℓ} {B : Type κ} → Step A → Step B → Step B
m >> k = m >>= λ _. k

abbrev pub pure {ℓ} : {A : Type ℓ} → A → Step A
pure a ctx = done (ok a, ctx)

-- The context as it stands.
unfoldable pub load : Step Context
load ctx = done (ok ctx, ctx)

-- A call that stores nothing.
unfoldable pub lift {ℓ} : {A : Type ℓ} → Outcome A → Step A
lift m ctx = Fault.◌>>=◌ m λ r. done (r, ctx)

-- A store to an `ArcSwap`.
unfoldable pub store : (Context → Context) → Step (Unit {0})
store f ctx = done (ok tt, f ctx)
