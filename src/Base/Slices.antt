-- ===== src/Base/Slices.antt =====
-- Slicing `v[begin..end]`, which panics out of range.
use Prim.Native.Nat.{ℕ, ◌+◌, ◌-◌, ◌≤◌}
use mathlib.Core.Path.{◌≡◌, ◌∙◌}
use mathlib.Core.Bool.{◌&&◌}
use mathlib.Core.List.{List, ◌++◌}
use native.Mathlib.Omega.{arith}
use mania.Base.Tests.{if◌then◌else◌, leb, le→leb}
use mania.Base.Lists.{length, take, drop, length-append, drop-append_length, take-append_length}
use mania.Base.Fault.{Fault, done, panic}

unfoldable pub slice {ℓ} : {A : Type ℓ} → ℕ → ℕ → List A → Fault (List A)
slice begin end v =
    if leb begin end && leb end (length v) then done (take (end - begin) (drop begin v)) else panic

-- A slice within the range.
pub slice_in_range {ℓ} :
    {A : Type ℓ} (b e : ℕ) (v : List A)
    → b ≤ e
    → e ≤ length v
    → slice b e v ≡ done (take (e - b) (drop b v))
unfolding slice
slice_in_range b e v h k = rw (le→leb b e h) (rw (le→leb e (length v) k))

-- The middle of three parts, by its place.
pub slice_middle {ℓ} :
    {A : Type ℓ} (b e : ℕ) (xs ys zs : List A)
    → b ≡ length xs
    → e ≡ length xs + length ys
    → slice b e (xs ++ (ys ++ zs)) ≡ done ys
slice_middle b e xs ys zs p q =
    slice_in_range b e (xs ++ (ys ++ zs)) (omega arith)
      (omega (arith, length-append xs (ys ++ zs), length-append ys zs))
    ∙ rw p (
        rw (drop-append_length xs (ys ++ zs))
          (let r : e - length xs ≡ length ys = omega arith in rw r (rw (take-append_length ys zs))))
