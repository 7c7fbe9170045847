-- ===== src/Packet/Reader/Reads.antt =====
-- What the reader calls take from the front of a buffer that starts with known bytes.
use mania.Base.{
  ℕ, ◌+◌, ◌-◌, ◌^◌, ◌%◌, ◌<◌, ◌≡◌, refl, ap, arith, List, [], ◌∷◌, ◌++◌, length, length-append,
  take-append_length, drop-append_length, le→leb, bit_and, append-nil, append_assoc, true, inl, inr,
}
use mania.Base.Bytes.{be16, be32, be64, from_be-be16, from_be-be32, from_be-be64}
use mania.Base.Utf8.{is_utf8, from_utf8_lossy-eq}
use mania.Packet.Builder.Appends.{IsWidth, width_bytes, own_length}
use mania.Base.Fault.{done}
use mania.Base.Int.{pos, ◌-ℤ◌, to_unsigned}
use mania.Packet.Reader.{
  Reader, split_to, get_uint, u8, u16, u32, u64, bytes, string, section_with_addition, section,
  section_16_with_addition, section_16, read_with_length, prefix, on_buffer,
}

-- `f` reads `input` off the front of any buffer and returns `t`.
pub record Reads {ℓ} {T : Type ℓ} (f : Reader T) (input : List ℕ) (t : T) : Type ℓ where
  pub at : (rest : List ℕ) → f (input ++ rest) ≡ done (t, rest)

-- `f` reads a whole buffer and returns `t`, whatever it leaves.
pub record ReadsAll {ℓ} {T : Type ℓ} (f : Reader T) (buffer : List ℕ) (t : T) : Type ℓ where
  pub left : List ℕ
  pub all : f buffer ≡ done (t, left)

pub Reads-all {ℓ} :
    {T : Type ℓ} {f : Reader T} {input : List ℕ} {t : T} → Reads f input t → ReadsAll f input t
Reads-all {f} {input} {t} R = record { left = []; all = rw (append-nil) at (R.at []) }

pub ReadsAll-bytes : (bs : List ℕ) → ReadsAll bytes bs bs
unfolding bytes
ReadsAll-bytes bs = record { left = []; all = refl }

pub ReadsAll-string : (s : List ℕ) → is_utf8 s ≡ true → ReadsAll string s s
unfolding string
ReadsAll-string s h = record { left = []; all = rw (from_utf8_lossy-eq s h) }

pub Reads-split_to : (n : ℕ) (bs : List ℕ) → n ≡ length bs → Reads (split_to n) bs bs
unfolding split_to
Reads-split_to n bs e = record {
  at = λ rest. rw e (
      rw (le→leb (length bs) (length (bs ++ rest)) (omega (arith, length-append bs rest)))
        (rw (take-append_length bs rest) (rw (drop-append_length bs rest))));
}

pub Reads-u8 : (v : ℕ) → Reads u8 (v ∷ []) v
unfolding u8 get_uint
Reads-u8 v = record {
  at = λ rest.
      rw ((Reads-split_to 1 (v ∷ []) refl).at rest) (ap (λ n. done (n, rest)) (omega arith));
}

pub Reads-u16 : (v : ℕ) → v < 2 ^ 16 → Reads u16 (be16 v) v
unfolding u16 get_uint
Reads-u16 v h = record {
  at = λ rest.
      rw ((Reads-split_to 2 (be16 v) refl).at rest) (ap (λ n. done (n, rest)) (from_be-be16 v h));
}

pub Reads-u32 : (v : ℕ) → v < 2 ^ 32 → Reads u32 (be32 v) v
unfolding u32 get_uint
Reads-u32 v h = record {
  at = λ rest.
      rw ((Reads-split_to 4 (be32 v) refl).at rest) (ap (λ n. done (n, rest)) (from_be-be32 v h));
}

pub Reads-u64 : (v : ℕ) → v < 2 ^ 64 → Reads u64 (be64 v) v
unfolding u64 get_uint
Reads-u64 v h = record {
  at = λ rest.
      rw ((Reads-split_to 8 (be64 v) refl).at rest) (ap (λ n. done (n, rest)) (from_be-be64 v h));
}

-- The length of a section is what is counted, less the addition.
section_size : (l n : ℕ) → l < 2 ^ 64 → to_unsigned 64 (pos (l + n) -ℤ pos n) ≡ l
unfolding to_unsigned ◌-ℤ◌
section_size l n h = ground arith

add-sub : (a b : ℕ) → a + b - b ≡ a
add-sub a b = omega arith

Reads-u8_wrapped : (v : ℕ) → v < 256 → Reads u8 (v % 256 ∷ []) v
Reads-u8_wrapped v h = let e : v % 256 ≡ v = omega arith in rw e (Reads-u8 v)

Reads-prefix : (w v : ℕ) → IsWidth w → v < 256 ^ w → Reads (prefix w) (width_bytes w v) v
unfolding prefix
Reads-prefix w v (inl e) h = rw e (Reads-u8_wrapped v (rw e at h))
Reads-prefix w v (inr (inl e)) h = rw e (Reads-u16 v (rw e at h))
Reads-prefix w v (inr (inr e)) h = rw e (Reads-u32 v (rw e at h))

-- A section of 16 bits hands its bytes to the callback, whatever the callback does with them.
pub section_16_on_buffer {ℓ} :
    {T : Type ℓ} (f : Reader T) (n : ℕ) (out rest : List ℕ)
    → length out + n < 2 ^ 16
    → section_16_with_addition (pos n) f (be16 (length out + n) ++ (out ++ rest))
      ≡ on_buffer f out rest
unfolding section_16_with_addition
section_16_on_buffer f n out rest fits = rw ((Reads-u16 (length out + n) fits).at (out ++ rest)) (
    rw (section_size (length out) n (omega arith))
      (rw ((Reads-split_to (length out) out refl).at rest)))

-- The callback sees exactly the `length` bytes of its part.
module _ {ℓ} {T : Type ℓ} {f : Reader T} {out : List ℕ} {t : T} (R : ReadsAll f out t) where
  Reads-on_buffer : (rest : List ℕ) → on_buffer f out rest ≡ done (t, rest)
  Reads-on_buffer rest = rw (R.all)

  pub Reads-section_with_addition :
      (n : ℕ)
      → length out + n < 2 ^ 32
      → Reads (section_with_addition (pos n) f) (be32 (length out + n) ++ out) t
  unfolding section_with_addition
  Reads-section_with_addition n fits = record {
    at = λ rest. rw ((Reads-u32 (length out + n) fits).at (out ++ rest)) (
        rw (section_size (length out) n (omega arith))
          (rw ((Reads-split_to (length out) out refl).at rest) (Reads-on_buffer rest)));
  }

  pub Reads-section_16_with_addition :
      (n : ℕ)
      → length out + n < 2 ^ 16
      → Reads (section_16_with_addition (pos n) f) (be16 (length out + n) ++ out) t
  unfolding section_16_with_addition
  Reads-section_16_with_addition n fits = record {
    at = λ rest. rw ((Reads-u16 (length out + n) fits).at (out ++ rest)) (
        rw (section_size (length out) n (omega arith))
          (rw ((Reads-split_to (length out) out refl).at rest) (Reads-on_buffer rest)));
  }

  pub Reads-section : length out + 4 < 2 ^ 32 → Reads (section f) (be32 (length out + 4) ++ out) t
  unfolding section
  Reads-section fits = Reads-section_with_addition 4 fits

  pub Reads-section_16 :
      length out + 2 < 2 ^ 16 → Reads (section_16 f) (be16 (length out + 2) ++ out) t
  unfolding section_16
  Reads-section_16 fits = Reads-section_16_with_addition 2 fits

  -- A prefix of one, two or four bytes that counts what `P` says.
  pub Reads-read_with_length :
      (P : ℕ)
      → IsWidth (bit_and P 7)
      → length out + own_length P < 256 ^ bit_and P 7
      → Reads
          (read_with_length P f)
          (width_bytes (bit_and P 7) (length out + own_length P) ++ out)
          t
  unfolding read_with_length
  Reads-read_with_length P w fits = record {
    at = λ rest.
        rw (append_assoc (width_bytes (bit_and P 7) (length out + own_length P)) out rest) (
          rw ((Reads-prefix (bit_and P 7) (length out + own_length P) w fits).at (out ++ rest)) (
            rw (le→leb (own_length P) (length out + own_length P) (omega arith)) (
              rw (add-sub (length out) (own_length P))
                (rw ((Reads-split_to (length out) out refl).at rest) (Reads-on_buffer rest)))));
  }
