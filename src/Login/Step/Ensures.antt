-- ===== src/Login/Step/Ensures.antt =====
-- What holds of the context once code has succeeded.
use mania.Base.{◌≡◌, refl}
use mania.Base.Fault.{Fault, done, panic, Result, ok, err}
use mania.Base.Fault
use mania.Context.{Context}
use mania.Event.{EventError, Outcome}
use mania.Login.Step.{Step, after, ◌>>=◌, lift, load}

-- A result that is no error leaves a context with `P`.
unfoldable pub Ensures {ℓ κ} : {A : Type ℓ} → (Context → Type κ) → Step A → Type (ℓ ⊔ κ)
Ensures {A} P m =
    (ctx ctx' : Context) (a : A)
    → ◌≡◌ {A = Fault (Result EventError A × Context)} (m ctx) (done (ok a, ctx'))
    → P ctx'

-- Every value that is returned has `Q`.
unfoldable pub Returns {ℓ κ} : {A : Type ℓ} → (A → Type κ) → Outcome A → Type (ℓ ⊔ κ)
Returns {A} Q m = (a : A) → m ≡ done (ok a) → Q a

module _ {ℓ κ μ} {A : Type ℓ} {B : Type κ} (P : Context → Type μ) where
  after_step :
      (r : Fault (Result EventError A × Context)) (f : A → Step B) (ctx' : Context) (b : B)
      → ((a : A) → Ensures P (f a))
      → ◌≡◌ {A = Fault (Result EventError B × Context)}
          (Fault.◌>>=◌ r (after f))
          (done (ok b, ctx'))
      → P ctx'
  unfolding Ensures
  after_step (done (ok a, c)) f ctx' b h e = h a c ctx' b e
  after_step (done (err d, c)) f ctx' b h e = cc
  after_step panic f ctx' b h e = cc

  -- What the rest ensures, the whole ensures.
  pub >>=-Ensures :
      (m : Step A) (f : A → Step B) → ((a : A) → Ensures P (f a)) → Ensures P (m >>= f)
  unfolding Ensures
  >>=-Ensures m f h ctx ctx' b e = after_step (m ctx) f ctx' b h e

  pub pass-Ensures :
      (m : Outcome A) (f : A → Step B) → ((a : A) → Ensures P (f a)) → Ensures P (lift m >>= f)
  pass-Ensures m f h = >>=-Ensures (lift m) f h

  -- The rest may rely on what is known of the value.
  pub lift-Ensures {ν} :
      (Q : A → Type ν) (m : Outcome A) (f : A → Step B)
      → Returns Q m
      → ((a : A) → Q a → Ensures P (f a))
      → Ensures P (lift m >>= f)
  unfolding Ensures Returns lift
  lift-Ensures Q (done (ok a)) f q h ctx ctx' b e = h a (q a refl) ctx ctx' b e
  lift-Ensures Q (done (err d)) f q h ctx ctx' b e = cc
  lift-Ensures Q panic f q h ctx ctx' b e = cc

pub load-Ensures {κ μ} :
    {B : Type κ} (P : Context → Type μ) (f : Context → Step B)
    → ((ctx : Context) → Ensures P (f ctx))
    → Ensures P (load >>= f)
load-Ensures P f h = >>=-Ensures P load f h
