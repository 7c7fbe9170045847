-- ===== src/Tea/Chain.antt =====
-- The chained mode on 64-bit blocks, and the blocks as bytes.
use mania.Base.{
  ℕ, zero, suc, ◌*◌, ◌^◌, ◌<◌, bit_xor, ◌≡◌, refl, ap, ap₂, arith, List, [], ◌∷◌, ◌++◌, length, All,
  All-append,
}
use mania.Base.Bytes.{be64, from_be, AreBytes, IsByte, from_be-be64, AreBytes-be64}
use mania.Base.Xor.{bit_xor-lt, bit_xor-bit_xor}
use mania.Tea.{words, unwords, encrypt_blocks, decrypt_blocks}
use mania.Tea.Block.{Tea16, encrypt}
use mania.Tea.Block.Inverse.{decrypt-encrypt, encrypt-lt}

abbrev pub AreU64 : List ℕ → Type 0
AreU64 = All (λ w. w < 2 ^ 64)

module _ (cipher : Tea16) where
  -- The chained decryption follows the encryption with the same `iv1` and `iv2`.
  pub decrypt_blocks-encrypt_blocks :
      (iv1 iv2 : ℕ) (blocks : List ℕ)
      → iv1 < 2 ^ 64
      → iv2 < 2 ^ 64
      → AreU64 blocks
      → decrypt_blocks cipher iv1 iv2 (encrypt_blocks cipher iv1 iv2 blocks) ≡ blocks
  unfolding decrypt_blocks encrypt_blocks
  decrypt_blocks-encrypt_blocks iv1 iv2 [] h k hs = refl
  decrypt_blocks-encrypt_blocks iv1 iv2 (b ∷ rest) h k (hb, hs) =
      let holder = bit_xor b iv1 in
      let out = bit_xor (encrypt cipher holder) iv2 in
      rw (bit_xor-bit_xor 64 (encrypt cipher holder) iv2 (encrypt-lt cipher holder) k) (
        rw (decrypt-encrypt cipher holder (bit_xor-lt 64 b iv1 hb h)) (
          ap₂ ◌∷◌ (bit_xor-bit_xor 64 b iv1 hb h) (
            decrypt_blocks-encrypt_blocks out holder rest
              (bit_xor-lt 64 _ _ (encrypt-lt cipher holder) k) (bit_xor-lt 64 b iv1 hb h) hs)))

  pub encrypt_blocks-AreU64 :
      (iv1 iv2 : ℕ) (blocks : List ℕ)
      → iv2 < 2 ^ 64
      → iv1 < 2 ^ 64
      → AreU64 blocks
      → AreU64 (encrypt_blocks cipher iv1 iv2 blocks)
  unfolding encrypt_blocks
  encrypt_blocks-AreU64 iv1 iv2 [] k h hs = tt
  encrypt_blocks-AreU64 iv1 iv2 (b ∷ rest) k h (hb, hs) =
      let out-lt = bit_xor-lt 64 _ iv2 (encrypt-lt cipher (bit_xor b iv1)) k in
      (
        out-lt,
        encrypt_blocks-AreU64 (bit_xor (encrypt cipher (bit_xor b iv1)) iv2) (bit_xor b iv1) rest
            (bit_xor-lt 64 b iv1 hb h) out-lt hs,
      )

  pub length-encrypt_blocks :
      (iv1 iv2 : ℕ) (blocks : List ℕ)
      → length (encrypt_blocks cipher iv1 iv2 blocks) ≡ length blocks
  unfolding encrypt_blocks
  length-encrypt_blocks iv1 iv2 [] = refl
  length-encrypt_blocks iv1 iv2 (b ∷ rest) =
      ap suc
        (length-encrypt_blocks (bit_xor (encrypt cipher (bit_xor b iv1)) iv2) (bit_xor b iv1) rest)

pub length-unwords : (ws : List ℕ) → length (unwords ws) ≡ 8 * length ws
unfolding unwords
length-unwords [] = refl
length-unwords (w ∷ ws) = omega (arith, length-unwords ws)

-- Words written and read back.
pub words-unwords : (ws : List ℕ) → AreU64 ws → words (length ws) (unwords ws) ≡ ws
unfolding words unwords
words-unwords [] h = refl
words-unwords (w ∷ ws) (hw, hs) = ap₂ ◌∷◌ (from_be-be64 w hw) (words-unwords ws hs)

pub AreBytes-unwords : (ws : List ℕ) → AreBytes (unwords ws)
unfolding unwords
AreBytes-unwords [] = tt
AreBytes-unwords (w ∷ ws) =
    All-append IsByte (be64 w) (unwords ws) (AreBytes-be64 w) (AreBytes-unwords ws)

module _ (a b c d e f g h : ℕ) (bytes : AreBytes (a ∷ b ∷ c ∷ d ∷ e ∷ f ∷ g ∷ h ∷ [])) where
  from_be-lt : from_be (a ∷ b ∷ c ∷ d ∷ e ∷ f ∷ g ∷ h ∷ []) < 2 ^ 64
  from_be-lt = omega arith

  be64-from_be :
      be64 (from_be (a ∷ b ∷ c ∷ d ∷ e ∷ f ∷ g ∷ h ∷ [])) ≡ a ∷ b ∷ c ∷ d ∷ e ∷ f ∷ g ∷ h ∷ []
  be64-from_be = ground arith

-- Bytes read as words and written back.
pub unwords-words :
    (n : ℕ) (text : List ℕ) → AreBytes text → length text ≡ 8 * n → unwords (words n text) ≡ text
unfolding words unwords
unwords-words zero [] hs p = refl
unwords-words zero (b ∷ bs) hs p = absurd (omega arith)
unwords-words (suc n) (a ∷ b ∷ c ∷ d ∷ e ∷ f ∷ g ∷ h ∷ rest) hs p =
    ap₂ ◌++◌ (be64-from_be a b c d e f g h (omega arith))
      (unwords-words n rest hs.1.1.1.1.1.1.1.1 (omega arith))
unwords-words (suc n) _ hs p = absurd (omega arith)

pub words-AreU64 :
    (n : ℕ) (text : List ℕ) → AreBytes text → length text ≡ 8 * n → AreU64 (words n text)
unfolding words
words-AreU64 zero text hs p = tt
words-AreU64 (suc n) (a ∷ b ∷ c ∷ d ∷ e ∷ f ∷ g ∷ h ∷ rest) hs p =
    (from_be-lt a b c d e f g h (omega arith), words-AreU64 n rest hs.1.1.1.1.1.1.1.1 (omega arith))
words-AreU64 (suc n) _ hs p = absurd (omega arith)
