-- ===== src/Tea/RoundTrip.antt =====
-- `tea_decrypt` takes back what `tea_encrypt` made, whatever the filling was.
use mania.Base.{
  ℕ, zero, suc, ◌+◌, ◌-◌, ◌/◌, ◌%◌, ◌<◌, bit_and, bit_or, ◌≡◌, ◌≢◌, refl, ap, ◌∙◌, arith, List, ◌∷◌,
  ◌++◌, length, All-append, replicate, length-append,
}
use mania.Base.Bytes.{AreBytes, IsByte}
use mania.Base.Fault.{Fault, done, panic, ◌>>=◌}
use mania.Base.Slices.{slice_middle}
use mania.Tea.{
  words, unwords, encrypt_blocks, decrypt_blocks, fill_count, plaintext, read_blocks, unfill,
  tea_encrypt, tea_decrypt,
}
use mania.Tea.Block.{Tea16, new}
use mania.Tea.Chain.{
  AreU64, decrypt_blocks-encrypt_blocks, encrypt_blocks-AreU64, length-unwords, words-unwords,
  unwords-words, words-AreU64,
}

-- What the random generator is relied on for: it writes exactly the bytes asked for.
pub record IsFiller (fill : ℕ → List ℕ) : Type 0 where
  pub size : (n : ℕ) → length (fill n) ≡ n
  pub bytes : (n : ℕ) → AreBytes (fill n)

-- The head byte keeps the count of filling bytes, less two, in its three low bits.
head_byte : (c : ℕ) → c < 8 → (bit_or c 0xF8 < 256) × (bit_and (bit_or c 0xF8) 7 ≡ c)
head_byte zero h = omega arith
head_byte (suc zero) h = omega arith
head_byte (suc (suc zero)) h = omega arith
head_byte (suc (suc (suc zero))) h = omega arith
head_byte (suc (suc (suc (suc zero)))) h = omega arith
head_byte (suc (suc (suc (suc (suc zero))))) h = omega arith
head_byte (suc (suc (suc (suc (suc (suc zero)))))) h = omega arith
head_byte (suc (suc (suc (suc (suc (suc (suc zero))))))) h = omega arith
head_byte (suc (suc (suc (suc (suc (suc (suc (suc c)))))))) h = absurd (omega arith)

module _ (fill : ℕ → List ℕ) (filler : IsFiller fill) (text : List ℕ) where
  -- The length of the padded text is a multiple of eight.
  length-plaintext :
      (length (plaintext fill text) ≡ fill_count text + length text + 8)
      × (length (plaintext fill text) % 8 ≡ 0)
  unfolding plaintext
  length-plaintext =
      let e = length-append (fill (fill_count text)) (text ++ replicate 7 0) in
      let e2 = length-append text (replicate 7 0) in
      omega (arith, e, e2, filler.size (fill_count text))

  plaintext-AreBytes : AreBytes text → AreBytes (plaintext fill text)
  unfolding plaintext
  plaintext-AreBytes h = (
    (head_byte (fill_count text - 2) (omega arith)).0,
    All-append IsByte _ _ (filler.bytes (fill_count text)) (All-append IsByte _ _ h (omega arith)),
  )

  -- Taking the filling and the zeros off gives the text.
  unfill-plaintext : unfill (plaintext fill text) ≡ done text
  unfolding unfill plaintext
  unfill-plaintext =
      let head = bit_or (fill_count text - 2) 0xF8 in
      slice_middle (bit_and head 7 + 3) (length (plaintext fill text) - 7)
        (head ∷ fill (fill_count text)) text (replicate 7 0)
        (omega
          (arith, head_byte (fill_count text - 2) (omega arith), filler.size (fill_count text)))
        (omega (arith, length-plaintext, filler.size (fill_count text)))

-- Blocks read from a text of whole blocks.
read_blocks_whole :
    (text : List ℕ) → length text % 8 ≡ 0 → read_blocks text ≡ done (words (length text / 8) text)
unfolding read_blocks
read_blocks_whole text h = rw h

-- What is written from `n` words is read as the same words.
read_blocks-unwords : (ws : List ℕ) → AreU64 ws → read_blocks (unwords ws) ≡ done ws
read_blocks-unwords ws h =
    read_blocks_whole (unwords ws) (omega (arith, length-unwords ws))
    ∙ ap done (
        let e : length (unwords ws) / 8 ≡ length ws = omega (arith, length-unwords ws) in
        rw e (words-unwords ws h))

Fault-cases {ℓ} : {A : Type ℓ} (m : Fault A) → m ≢ panic → (a : A) × (m ≡ done a)
Fault-cases (done a) h = (a, refl)
Fault-cases panic h = absurd (h refl)

new_done : (key : List ℕ) → length key ≡ 16 → (c : Tea16) × (new key ≡ done c)
unfolding new
new_done key k = Fault-cases (new key) (rw k (λ p. cc))

-- The encrypted blocks of a padded text, and what they are read and decrypted to.
module _ (c : Tea16) (padded : List ℕ) (bytes : AreBytes padded)
    (whole : length padded % 8 ≡ 0) where
  encrypted : List ℕ
  encrypted = encrypt_blocks c 0 0 (words (length padded / 8) padded)

  plain-AreU64 : AreU64 (words (length padded / 8) padded)
  plain-AreU64 = words-AreU64 (length padded / 8) padded bytes (omega arith)

  read_blocks-encrypted : read_blocks (unwords encrypted) ≡ done encrypted
  unfolding encrypted
  read_blocks-encrypted =
      read_blocks-unwords encrypted
        (encrypt_blocks-AreU64 c 0 0 _ (omega arith) (omega arith) plain-AreU64)

  unwords-decrypt_blocks : unwords (decrypt_blocks c 0 0 encrypted) ≡ padded
  unfolding encrypted
  unwords-decrypt_blocks =
      ap unwords (decrypt_blocks-encrypt_blocks c 0 0 _ (omega arith) (omega arith) plain-AreU64)
      ∙ unwords-words (length padded / 8) padded bytes (omega arith)

-- For bytes, a key of sixteen bytes and a generator that fills what it is asked to fill,
-- encryption succeeds, and decryption with the same key gives the text back.
pub tea_decrypt-tea_encrypt :
    (fill : ℕ → List ℕ) (text key : List ℕ)
    → IsFiller fill
    → AreBytes text
    → length key ≡ 16
    → (tea_encrypt fill text key >>= λ cipher. tea_decrypt cipher key) ≡ done text
unfolding tea_encrypt tea_decrypt encrypted
tea_decrypt-tea_encrypt fill text key filler h k =
    let padded = plaintext fill text in
    let (c, nk) = new_done key k in
    let whole = (length-plaintext fill filler text).1 in
    let bytes = plaintext-AreBytes fill filler text h in
    rw (read_blocks_whole padded whole) (
      rw nk (
        rw (read_blocks-encrypted c padded bytes whole)
          (rw (unwords-decrypt_blocks c padded bytes whole) (unfill-plaintext fill filler text))))
