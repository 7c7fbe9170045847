-- ===== src/Login/Step/Errors.antt =====
-- Code that stores only after its last `?` changes nothing when it fails.
use mania.Base.{◌≡◌, refl, ◌∙◌}
use mania.Base.Fault.{Fault, done, panic, Result, ok, err}
use mania.Base.Fault
use mania.Context.{Context}
use mania.Event.{EventError, Outcome}
use mania.Login.Step.{Step, after, ◌>>=◌, pure, load, lift, store}

-- An error leaves the context as it was.
unfoldable pub KeepsOnError {ℓ} : {A : Type ℓ} → Step A → Type ℓ
KeepsOnError {A} m =
    (ctx ctx' : Context) (e : EventError)
    → ◌≡◌ {A = Fault (Result EventError A × Context)} (m ctx) (done (err e, ctx'))
    → ctx' ≡ ctx

-- Nothing is stored, whatever the result is.
pub ReadsOnly {ℓ} : {A : Type ℓ} → Step A → Type ℓ
ReadsOnly {A} m =
    (ctx ctx' : Context) (r : Result EventError A)
    → ◌≡◌ {A = Fault (Result EventError A × Context)} (m ctx) (done (r, ctx'))
    → ctx' ≡ ctx

-- There is no error.
pub Succeeds {ℓ} : {A : Type ℓ} → Step A → Type ℓ
Succeeds {A} m =
    (ctx ctx' : Context) (e : EventError)
    → ¬ (◌≡◌ {A = Fault (Result EventError A × Context)} (m ctx) (done (err e, ctx')))

pub load-ReadsOnly : ReadsOnly load
unfolding ReadsOnly load
load-ReadsOnly ctx ctx' r e = cc

pub lift-ReadsOnly {ℓ} : {A : Type ℓ} (m : Outcome A) → ReadsOnly (lift m)
unfolding ReadsOnly lift
lift-ReadsOnly (done r) ctx ctx' r' e = cc
lift-ReadsOnly panic ctx ctx' r' e = cc

pub store-Succeeds : (f : Context → Context) → Succeeds (store f)
unfolding Succeeds store
store-Succeeds f ctx ctx' e h = cc

pub pure-Succeeds {ℓ} : {A : Type ℓ} (a : A) → Succeeds (pure a)
unfolding Succeeds
pure-Succeeds a ctx ctx' e h = cc

module _ {ℓ κ} {A : Type ℓ} {B : Type κ} (m : Step A) (f : A → Step B) where
  after-Succeeds :
      (r : Fault (Result EventError A × Context)) (ctx' : Context) (e : EventError)
      → ((c : Context) (d : EventError)
          → ¬ (◌≡◌ {A = Fault (Result EventError A × Context)} r (done (err d, c))))
      → ((a : A) → Succeeds (f a))
      → ¬ (
          ◌≡◌ {A = Fault (Result EventError B × Context)}
            (Fault.◌>>=◌ r (after f))
            (done (err e, ctx')))
  unfolding Succeeds
  after-Succeeds (done (ok a, c)) ctx' e hm hf h = hf a c ctx' e h
  after-Succeeds (done (err d, c)) ctx' e hm hf h = hm c d refl
  after-Succeeds panic ctx' e hm hf h = cc

  pub >>=-Succeeds : Succeeds m → ((a : A) → Succeeds (f a)) → Succeeds (m >>= f)
  unfolding Succeeds
  >>=-Succeeds hm hf ctx ctx' e h = after-Succeeds (m ctx) ctx' e (hm ctx) hf h

  after-KeepsOnError :
      (r : Fault (Result EventError A × Context)) (ctx ctx' : Context) (e : EventError)
      → ((c : Context) (d : Result EventError A)
          → ◌≡◌ {A = Fault (Result EventError A × Context)} r (done (d, c))
          → c ≡ ctx)
      → ((a : A) → KeepsOnError (f a))
      → ◌≡◌ {A = Fault (Result EventError B × Context)}
          (Fault.◌>>=◌ r (after f))
          (done (err e, ctx'))
      → ctx' ≡ ctx
  unfolding KeepsOnError
  after-KeepsOnError (done (ok a, c)) ctx ctx' e hm hf h = hf a c ctx' e h ∙ hm c (ok a) refl
  after-KeepsOnError (done (err d, c)) ctx ctx' e hm hf h =
      let k : c ≡ ctx = hm c (err d) refl in cc (k, h)
  after-KeepsOnError panic ctx ctx' e hm hf h = cc

  pub >>=-KeepsOnError : ReadsOnly m → ((a : A) → KeepsOnError (f a)) → KeepsOnError (m >>= f)
  unfolding KeepsOnError ReadsOnly
  >>=-KeepsOnError hm hf ctx ctx' e h = after-KeepsOnError (m ctx) ctx ctx' e (hm ctx) hf h

pub Succeeds-KeepsOnError {ℓ} : {A : Type ℓ} (m : Step A) → Succeeds m → KeepsOnError m
unfolding KeepsOnError Succeeds
Succeeds-KeepsOnError m h ctx ctx' e k = elim (h ctx ctx' e k) [ ]
