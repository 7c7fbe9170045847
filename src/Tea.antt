-- ===== src/Tea.antt =====
-- mania/src/core/crypto/tea.rs: TEA on 64-bit blocks, and the chained mode with random filling.
-- A `u32` or `u64` is a number, and each operation wraps as its Rust counterpart does. What the
-- random generator writes into `n` bytes is the parameter `fill n`; a debug build writes 220s.
pub mod Block
pub mod Chain
pub mod RoundTrip
pub mod Runs
mod Tests
use mania.Base.{
  ℕ, zero, suc, ◌+◌, ◌-◌, ◌/◌, ◌%◌, bit_xor, bit_and, bit_or, List, [], ◌∷◌, ◌++◌, if◌then◌else◌,
  ◌==◌, leb, length, take, drop, replicate,
}
use mania.Base.Bytes.{be64, from_be}
use mania.Base.Fault.{Fault, done, panic, ◌>>=◌}
use mania.Base.Slices.{slice}
use Block.{Tea16, encrypt, decrypt, new}

-- `read_u64_into` fills a slice of `n` words.
unfoldable pub words : ℕ → List ℕ → List ℕ
words zero text = []
words (suc n) text = from_be (take 8 text) ∷ words n (drop 8 text)

-- `write_u64_into`
unfoldable pub unwords : List ℕ → List ℕ
unwords [] = []
unwords (w ∷ ws) = be64 w ++ unwords ws

-- `read_u64_into(text, &mut vec![0; text.len() / 8])` panics unless the lengths agree.
pub read_blocks : List ℕ → Fault (List ℕ)
read_blocks text = if length text % 8 == 0 then done (words (length text / 8) text) else panic

-- The loops over the blocks, with the variables `iv1` and `iv2`.
pub encrypt_blocks : Tea16 → ℕ → ℕ → List ℕ → List ℕ
encrypt_blocks cipher iv1 iv2 [] = []
encrypt_blocks cipher iv1 iv2 (block ∷ rest) =
    let holder = bit_xor block iv1 in
    let out = bit_xor (encrypt cipher holder) iv2 in out ∷ encrypt_blocks cipher out holder rest

pub decrypt_blocks : Tea16 → ℕ → ℕ → List ℕ → List ℕ
decrypt_blocks cipher iv1 iv2 [] = []
decrypt_blocks cipher iv1 iv2 (block ∷ rest) =
    let tmp_block = decrypt cipher (bit_xor block iv2) in
    bit_xor tmp_block iv1 ∷ decrypt_blocks cipher block tmp_block rest

abbrev pub fill_count : List ℕ → ℕ
fill_count text = 9 - (length text + 1) % 8

-- The head byte tells how many bytes of filling follow; seven zeros end the text.
pub plaintext : (ℕ → List ℕ) → List ℕ → List ℕ
plaintext fill text =
    bit_or (fill_count text - 2) 0xF8 ∷ (fill (fill_count text) ++ (text ++ replicate 7 0))

pub tea_encrypt : (ℕ → List ℕ) → List ℕ → List ℕ → Fault (List ℕ)
tea_encrypt fill text key = do
  work_block ← read_blocks (plaintext fill text)
  cipher ← new key
  done (unwords (encrypt_blocks cipher 0 0 work_block))

-- `result[0]` panics on an empty text; it has eight bytes at least otherwise.
pub unfill : List ℕ → Fault (List ℕ)
unfill [] = panic
unfill (b ∷ rest) = slice (bit_and b 7 + 3) (length (b ∷ rest) - 7) (b ∷ rest)

pub tea_decrypt : List ℕ → List ℕ → Fault (List ℕ)
tea_decrypt text key = do
  work_block ← read_blocks text
  cipher ← new key
  unfill (unwords (decrypt_blocks cipher 0 0 work_block))

-- The one-block functions on a slice that starts with the block.
pub tea16_encrypt : List ℕ → List ℕ → Fault (List ℕ)
tea16_encrypt text key = do
  cipher ← new key
  if leb 8 (length text)
      then done (be64 (encrypt cipher (from_be (take 8 text))) ++ drop 8 text)
      else panic

pub tea16_decrypt : List ℕ → List ℕ → Fault (List ℕ)
tea16_decrypt text key = do
  cipher ← new key
  if leb 8 (length text)
      then done (be64 (decrypt cipher (from_be (take 8 text))) ++ drop 8 text)
      else panic
