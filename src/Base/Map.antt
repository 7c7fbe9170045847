-- ===== src/Base/Map.antt =====
-- A `HashMap` or a `DashMap`: an association list, each key of which counts where it stands first.
use mathlib.Core.Path.{◌≡◌, refl, sym, ◌∙◌}
use mathlib.Core.Logic.{◌↔◌, ◌⊎◌, inl, inr}
use mathlib.Core.Bool.{Bool, true, false, ◌&&◌}
use mathlib.Core.Option.{Option, none, some}
use mathlib.Core.List.{List, [], ◌∷◌}
use native.Mathlib.Omega.{arith}
use Prim.Native.Nat.{ℕ}
use mania.Base.Tests.{if◌then◌else◌, ◌==◌, ==_iff, Bool-cases}

-- Keys with a test for equality.
pub record Key {ℓ} (K : Type ℓ) : Type ℓ where
  pub same : K → K → Bool
  pub same_iff : (a b : K) → (same a b ≡ true) ↔ (a ≡ b)

-- Texts are compared byte by byte.
abbrev pub same_text : List ℕ → List ℕ → Bool
same_text [] [] = true
same_text [] (d ∷ ds) = false
same_text (c ∷ cs) [] = false
same_text (c ∷ cs) (d ∷ ds) = c == d && same_text cs ds

pub same_text_iff : (s t : List ℕ) → (same_text s t ≡ true) ↔ (s ≡ t)
same_text_iff [] [] = (λ e. refl, λ e. refl)
same_text_iff [] (d ∷ ds) = (λ e. cc (e), λ e. cc (e))
same_text_iff (c ∷ cs) [] = (λ e. cc (e), λ e. cc (e))
same_text_iff (c ∷ cs) (d ∷ ds) = ground (arith, same_text_iff cs ds)

instance abbrev pub number_key : Key ℕ
number_key = record { same = ◌==◌; same_iff = ==_iff }

instance abbrev pub text_key : Key (List ℕ)
text_key = record { same = same_text; same_iff = same_text_iff }

abbrev pub is_some {ℓ} : {V : Type ℓ} → Option V → Bool
is_some none = false
is_some (some v) = true

abbrev pub is_empty_map {ℓ κ} : {K : Type ℓ} {V : Type κ} → List (K × V) → Bool
is_empty_map [] = true
is_empty_map (entry ∷ m) = false

module _ {ℓ κ} {K : Type ℓ} {V : Type κ} ⦃key : Key K⦄ where
  unfoldable pub get : List (K × V) → K → Option V
  get [] k = none
  get (entry ∷ m) k = if key.same entry.0 k then some entry.1 else get m k

  unfoldable pub put : K → V → List (K × V) → List (K × V)
  put k v [] = (k, v) ∷ []
  put k v (entry ∷ m) = if key.same entry.0 k then (k, v) ∷ m else entry ∷ put k v m

  unfoldable pub contains_key : List (K × V) → K → Bool
  unfolding get
  contains_key m k = is_some (get m k)

  -- What was put is found.
  pub get-put : (k : K) (v : V) (m : List (K × V)) → get (put k v m) k ≡ some v
  unfolding get put
  get-put k v [] = rw ((key.same_iff k k).1 refl) refl
  get-put k v (entry ∷ m) = elim (Bool-cases (key.same entry.0 k)) [
    | inl here ↦ rw (here, (key.same_iff k k).1 refl) refl
    | inr away ↦ rw (away, away) (get-put k v m)
  ]

-- What a change of one key does at every key, for numbers.
module _ {ℓ} {V : Type ℓ} where
  unfoldable pub remove : ℕ → List (ℕ × V) → List (ℕ × V)
  remove k [] = []
  remove k (entry ∷ m) = if entry.0 == k then remove k m else entry ∷ remove k m

  pub get-put_at :
      (k : ℕ) (v : V) (m : List (ℕ × V)) (j : ℕ)
      → get (put k v m) j ≡ (if k == j then some v else get m j)
  unfolding get put
  get-put_at k v [] j = refl
  get-put_at k v (entry ∷ m) j = ground (arith, get-put_at k v m j)

  pub get-remove_at :
      (k : ℕ) (m : List (ℕ × V)) (j : ℕ) → get (remove k m) j ≡ (if k == j then none else get m j)
  unfolding get remove
  get-remove_at k [] j = ground (arith)
  get-remove_at k (entry ∷ m) j = ground (arith, get-remove_at k m j)

  pub put_away :
      (k : ℕ) (v : V) (m : List (ℕ × V)) (j : ℕ) → (k == j) ≡ false → get (put k v m) j ≡ get m j
  put_away k v m j e = get-put_at k v m j ∙ rw (e) refl

  pub remove_away :
      (k : ℕ) (m : List (ℕ × V)) (j : ℕ) → (k == j) ≡ false → get (remove k m) j ≡ get m j
  remove_away k m j e = get-remove_at k m j ∙ rw (e) refl

  -- Where a value that is found after a `put` comes from.
  pub put_cases :
      (k : ℕ) (v : V) (m : List (ℕ × V)) (j : ℕ) (w : V)
      → get (put k v m) j ≡ some w
      → ((k ≡ j) × (v ≡ w)) ⊎ (((k == j) ≡ false) × (get m j ≡ some w))
  put_cases k v m j w e = elim (Bool-cases (k == j)) [
    | inl here ↦
        let found : some v ≡ some w = sym (get-put_at k v m j ∙ rw (here) refl) ∙ e in
        inl ((==_iff k j).0 here, cc (found))
    | inr away ↦ inr (away, sym (put_away k v m j away) ∙ e)
  ]

  pub remove_cases :
      (k : ℕ) (m : List (ℕ × V)) (j : ℕ) (w : V)
      → get (remove k m) j ≡ some w
      → ((k == j) ≡ false) × (get m j ≡ some w)
  remove_cases k m j w e = elim (Bool-cases (k == j)) [
    | inl here ↦
        let gone : none ≡ some w = sym (get-remove_at k m j ∙ rw (here) refl) ∙ e in cc (gone)
    | inr away ↦ (away, sym (remove_away k m j away) ∙ e)
  ]
