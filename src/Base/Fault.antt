-- ===== src/Base/Fault.antt =====
-- Rust code that may panic, and Rust's `Result`.
use mathlib.Core.Path.{◌≡◌, refl}

-- `panic` is an unwinding panic: an index out of bounds, an underflow, `expect` on `None`.
pub data Fault {ℓ} (A : Type ℓ) : Type ℓ where
  done : A → Fault A
  panic : Fault A

-- `abbrev`, so that `done a >>= f` computes wherever it stands.
infixl 5 ◌>>=◌ ◌>>◌
abbrev pub ◌>>=◌ {ℓ κ} : {A : Type ℓ} {B : Type κ} → Fault A → (A → Fault B) → Fault B
done a >>= f = f a
panic >>= f = panic

abbrev pub ◌>>◌ {ℓ} : {B : Type ℓ} → Fault (Unit {0}) → Fault B → Fault B
m >> k = m >>= λ _. k

-- `Ok` and `Err`.
pub data Result {ℓ κ} (E : Type ℓ) (A : Type κ) : Type (ℓ ⊔ κ) where
  ok : A → Result E A
  err : E → Result E A

pub >>=-assoc {ℓ κ μ} :
    {A : Type ℓ} {B : Type κ} {C : Type μ} (m : Fault A) (f : A → Fault B) (g : B → Fault C)
    → ((m >>= f) >>= g) ≡ (m >>= λ a. f a >>= g)
>>=-assoc (done a) f g = refl
>>=-assoc panic f g = refl

-- What a chain returned came from a first part that returned.
pub >>=-done {ℓ κ} :
    {A : Type ℓ} {B : Type κ} (m : Fault A) (f : A → Fault B) (b : B)
    → (m >>= f) ≡ done b
    → (a : A) × ((m ≡ done a) × (f a ≡ done b))
>>=-done (done a) f b e = (a, (refl, e))
>>=-done panic f b e = cc
