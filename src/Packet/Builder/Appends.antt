-- ===== src/Packet/Builder/Appends.antt =====
-- Each builder call appends fixed bytes, whatever the buffer holds; a section appends the length of
-- what it wraps and then that.
use mania.Base.{
  ℕ, ◌+◌, ◌-◌, ◌%◌, ◌^◌, ◌<◌, ◌≤◌, ◌≡◌, refl, sym, ap, ◌∙◌, arith, List, [], ◌∷◌, ◌++◌, length,
  take, drop, append_assoc, append-nil, length-append, take-append_length, drop-append_length,
  le→leb, le→ltb, lt→ltb, bit_and, false, ◌⊎◌, inl, inr, if◌then◌else◌, ltb, ◌==◌,
}
use mania.Base.Bytes.{be16, be32, be64}
use mania.Base.Fault.{done, panic}
use mania.Base.Int.{pos, ◌+ℤ◌, ◌-ℤ◌, to_unsigned}
use mania.Packet.Builder.{
  Build, ◌⨾◌, unchanged, bytes, string, u8, u16, u32, u64, overwrite, sub_usize,
  section_with_addition, section_16_with_addition, section, section_16, write_with_length,
  prefix_bytes,
}

-- `f` succeeds on every buffer and adds `out` behind it.
pub record Appends (f : Build) (out : List ℕ) : Type 0 where
  pub at : (p : List ℕ) → f p ≡ done (p ++ out)

pub Appends-unchanged : Appends unchanged []
Appends-unchanged = record { at = λ p. ap done (sym (append-nil p)) }

pub Appends-bytes : (bs : List ℕ) → Appends (bytes bs) bs
unfolding bytes
Appends-bytes bs = record { at = λ p. refl }

pub Appends-string : (bs : List ℕ) → Appends (string bs) bs
unfolding string
Appends-string bs = Appends-bytes bs

pub Appends-u8 : (v : ℕ) → Appends (u8 v) (v ∷ [])
unfolding u8
Appends-u8 v = record { at = λ p. refl }

pub Appends-u16 : (v : ℕ) → Appends (u16 v) (be16 v)
unfolding u16
Appends-u16 v = record { at = λ p. refl }

pub Appends-u32 : (v : ℕ) → Appends (u32 v) (be32 v)
unfolding u32
Appends-u32 v = record { at = λ p. refl }

pub Appends-u64 : (v : ℕ) → Appends (u64 v) (be64 v)
unfolding u64
Appends-u64 v = record { at = λ p. refl }

pub Appends-⨾ :
    {f g : Build} {xs ys : List ℕ} → Appends f xs → Appends g ys → Appends (f ⨾ g) (xs ++ ys)
Appends-⨾ {f} {g} {xs} {ys} F G = record {
  at = λ p. rw (F.at p) (rw (G.at (p ++ xs)) (ap done (append_assoc p xs ys)));
}

-- Long chains of calls are read off one behind the other.
infixr 6 ◌⊹◌
pub ◌⊹◌ : {f g : Build} {xs ys : List ℕ} → Appends f xs → Appends g ys → Appends (f ⨾ g) (xs ++ ys)
F ⊹ G = Appends-⨾ F G

drop_two {ℓ} :
    {A : Type ℓ} (xs old ys : List A) → drop (length xs + length old) ((xs ++ old) ++ ys) ≡ ys
drop_two xs old ys = rw (← length-append xs old) (drop-append_length (xs ++ old) ys)

take_two {ℓ} : {A : Type ℓ} (xs old ys : List A) → take (length xs) ((xs ++ old) ++ ys) ≡ xs
take_two xs old ys = rw (append_assoc xs old ys) (take-append_length xs (old ++ ys))

-- New bytes over as many old ones in the middle.
overwrite_middle :
    (k : ℕ) (xs old ys new_bytes : List ℕ)
    → k ≡ length xs
    → length new_bytes ≡ length old
    → overwrite k new_bytes ((xs ++ old) ++ ys) ≡ done (xs ++ (new_bytes ++ ys))
unfolding overwrite
overwrite_middle k xs old ys new_bytes h e =
    let sizes = length-append (xs ++ old) ys in
    rw (h, e)
      (rw
        (le→leb (length xs + length old) (length ((xs ++ old) ++ ys))
          (omega (arith, sizes, length-append xs old)))
        (rw (take_two xs old ys) (rw (drop_two xs old ys))))

sub_usize_done : (a b : ℕ) → b ≤ a → sub_usize a b ≡ done (a - b)
unfolding sub_usize
sub_usize_done a b h = rw (le→leb b a h)

be32_wraps : (v : ℕ) → be32 (v % 2 ^ 32) ≡ be32 v
be32_wraps v = ground arith

be16_wraps : (v : ℕ) → be16 (v % 2 ^ 16) ≡ be16 v
be16_wraps v = ground arith

be16_field : (v : ℕ) → be16 (to_unsigned 16 (pos v)) ≡ be16 v
unfolding to_unsigned
be16_field v = be16_wraps v

-- The length that a section writes, from the bytes written since its start.
section_length : (w n : ℕ) → to_unsigned 32 (pos (w + 4) -ℤ pos 4 +ℤ pos n) ≡ (w + n) % 2 ^ 32
unfolding to_unsigned ◌+ℤ◌ ◌-ℤ◌
section_length w n = ground arith

section_16_length : (w n : ℕ) → pos (w + 2) -ℤ pos 2 +ℤ pos n ≡ pos (w + n)
unfolding ◌+ℤ◌ ◌-ℤ◌
section_16_length w n = ground arith

-- What has been written after `k` placeholder bytes and `out`.
written_done :
    (p zeros out : List ℕ)
    → sub_usize (length ((p ++ zeros) ++ out)) (length p) ≡ done (length out + length zeros)
written_done p zeros out =
    let e = length-append (p ++ zeros) out in
    let e' = length-append p zeros in
    sub_usize_done _ _ (omega (arith, e, e')) ∙ ap done (omega (arith, e, e'))

pub Appends-section_with_addition :
    (n : ℕ) {f : Build} {out : List ℕ}
    → Appends f out
    → Appends (section_with_addition (pos n) f) (be32 (length out + n) ++ out)
unfolding section_with_addition
Appends-section_with_addition n {f} {out} F = record {
  at = λ p. rw (F.at (p ++ be32 0)) (
      rw (written_done p (be32 0) out) (
        rw (section_length (length out) n) (
          rw (be32_wraps (length out + n))
            (overwrite_middle (length p) p (be32 0) out (be32 (length out + n)) refl refl))));
}

pub Appends-section :
    {f : Build} {out : List ℕ} → Appends f out → Appends (section f) (be32 (length out + 4) ++ out)
unfolding section
Appends-section F = Appends-section_with_addition 4 F

-- The panic for a length that does not fit is not reached below 2 ^ 16.
pub Appends-section_16_with_addition :
    (n : ℕ) {f : Build} {out : List ℕ}
    → Appends f out
    → length out + n < 2 ^ 16
    → Appends (section_16_with_addition (pos n) f) (be16 (length out + n) ++ out)
unfolding section_16_with_addition
Appends-section_16_with_addition n {f} {out} F fits = record {
  at = λ p. rw (F.at (p ++ be16 0)) (
      rw (written_done p (be16 0) out) (
        rw (section_16_length (length out) n) (
          rw (le→ltb 0xFFFF (length out + n) (omega arith)) (
            rw (be16_field (length out + n))
              (overwrite_middle (length p) p (be16 0) out (be16 (length out + n)) refl refl)))));
}

pub Appends-section_16 :
    {f : Build} {out : List ℕ}
    → Appends f out
    → length out + 2 < 2 ^ 16
    → Appends (section_16 f) (be16 (length out + 2) ++ out)
unfolding section_16
Appends-section_16 F fits = Appends-section_16_with_addition 2 F fits

-- A length that does not fit is a panic.
pub section_16_too_long :
    (n : ℕ) {f : Build} {out : List ℕ}
    → Appends f out
    → 2 ^ 16 ≤ length out + n
    → (p : List ℕ) → section_16_with_addition (pos n) f p ≡ panic
unfolding section_16_with_addition
section_16_too_long n {f} {out} F long p = rw (F.at (p ++ be16 0)) (
    rw (written_done p (be16 0) out)
      (rw (section_16_length (length out) n) (rw (lt→ltb 0xFFFF (length out + n) (omega arith)))))

-- A number in one, two or four bytes.
abbrev pub width_bytes : ℕ → ℕ → List ℕ
width_bytes w v = if w == 1 then v % 256 ∷ [] else if w == 2 then be16 v else be32 v

abbrev pub IsWidth : ℕ → Type 0
IsWidth w = (w ≡ 1) ⊎ (w ≡ 2) ⊎ (w ≡ 4)

-- What the prefix `P` adds to the length of the contents.
abbrev pub own_length : ℕ → ℕ
own_length P = if ltb 0 (bit_and P 8) then bit_and P 7 else 0

prefix_bytes_done : (w v : ℕ) → IsWidth w → prefix_bytes w (pos v) ≡ done (width_bytes w v)
unfolding prefix_bytes to_unsigned
prefix_bytes_done w v (inl e) = rw e refl
prefix_bytes_done w v (inr (inl e)) = rw e (rw (be16_wraps v) refl)
prefix_bytes_done w v (inr (inr e)) = rw e (rw (be32_wraps v) refl)

length-width_bytes : (w v : ℕ) → IsWidth w → length (width_bytes w v) ≡ w
length-width_bytes w v (inl e) = rw e refl
length-width_bytes w v (inr (inl e)) = rw e refl
length-width_bytes w v (inr (inr e)) = rw e refl

IsWidth-pos : (w : ℕ) → IsWidth w → (w == 0) ≡ false
IsWidth-pos w h = ground arith

counted_length :
    (P c a : ℕ)
    → pos (if ltb 0 (bit_and P 8) then c + bit_and P 7 else c) +ℤ pos a ≡ pos (c + own_length P + a)
unfolding ◌+ℤ◌
counted_length P c a = ground arith

contents_done :
    (p zeros out : List ℕ)
    → sub_usize (length ((p ++ zeros) ++ out)) (length (p ++ zeros)) ≡ done (length out)
contents_done p zeros out =
    let e = length-append (p ++ zeros) out in
    sub_usize_done _ _ (omega (arith, e)) ∙ ap done (omega (arith, e))

-- A length prefix of one, two or four bytes holds the length of the contents, its own length if `P`
-- counts it, and the addition `a`, modulo its width.
pub Appends-write_with_length :
    (P a : ℕ) {f : Build} {out : List ℕ}
    → IsWidth (bit_and P 7)
    → Appends f out
    → Appends
        (write_with_length P (pos a) f)
        (width_bytes (bit_and P 7) (length out + own_length P + a) ++ out)
unfolding write_with_length
Appends-write_with_length P a {f} {out} w F = record {
  at = λ p.
      let k = bit_and P 7 in
      let zeros = width_bytes k 0 in
      let field = width_bytes k (length out + own_length P + a) in
      rw (IsWidth-pos k w) (
        rw (prefix_bytes_done k 0 w) (
          rw (F.at (p ++ zeros)) (
            rw (contents_done p zeros out) (
              rw (counted_length P (length out) a) (
                rw (prefix_bytes_done k (length out + own_length P + a) w) (
                  overwrite_middle _ p zeros out field
                    (omega (arith, length-append p zeros, length-width_bytes k 0 w))
                    (omega (
                      arith,
                      length-width_bytes k 0 w,
                      length-width_bytes k (length out + own_length P + a) w,
                    ))))))));
}
