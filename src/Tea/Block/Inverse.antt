-- ===== src/Tea/Block/Inverse.antt =====
-- Decryption of a block undoes its encryption.
use mania.Base.{ℕ, zero, suc, ◌+◌, ◌*◌, ◌%◌, ◌^◌, ◌<◌, ◌≡◌, refl, ap, ◌∙◌, arith}
use mania.Base.Xor.{bit_xor-lt}
use mania.Tea.Block.{
  Tea16, Rounds, wrapping_add, wrapping_sub, tea_delta, mix, encrypt_round, encrypt_rounds,
  decrypt_round, decrypt_rounds, encrypt, decrypt, split, join,
}

-- The three variables are words.
pub record AreWords (r : Rounds) : Type 0 where
  pub sum_lt : r.sum < 2 ^ 32
  pub x_lt : r.x < 2 ^ 32
  pub y_lt : r.y < 2 ^ 32

mix-lt : (ka kb sum v : ℕ) → mix ka kb sum v < 2 ^ 32
unfolding mix
mix-lt ka kb sum v = bit_xor-lt 32 _ _ (bit_xor-lt 32 _ _ (omega arith) (omega arith)) (omega arith)

wrapping_sub-add : (a b : ℕ) → a < 2 ^ 32 → b < 2 ^ 32 → wrapping_sub (wrapping_add a b) b ≡ a
wrapping_sub-add a b h k = omega arith

module _ (key : Tea16) where
  decrypt_round-encrypt_round :
      (r : Rounds) → AreWords r → decrypt_round key (encrypt_round key r) ≡ r
  unfolding decrypt_round encrypt_round
  decrypt_round-encrypt_round r w =
      let sum = wrapping_add r.sum tea_delta in
      let x = wrapping_add r.x (mix key.k0 key.k1 sum r.y) in
      rw (wrapping_sub-add r.y (mix key.k2 key.k3 sum x) w.y_lt (mix-lt key.k2 key.k3 sum x)) (
        rw (wrapping_sub-add r.x (mix key.k0 key.k1 sum r.y) w.x_lt (mix-lt key.k0 key.k1 sum r.y))
          (rw (wrapping_sub-add r.sum tea_delta w.sum_lt (omega arith))))

  encrypt_round-AreWords : (r : Rounds) → AreWords (encrypt_round key r)
  unfolding encrypt_round
  encrypt_round-AreWords r = omega arith

  encrypt_rounds-AreWords : (n : ℕ) (r : Rounds) → AreWords r → AreWords (encrypt_rounds key n r)
  unfolding encrypt_rounds
  encrypt_rounds-AreWords zero r w = w
  encrypt_rounds-AreWords (suc n) r w =
      encrypt_rounds-AreWords n (encrypt_round key r) (encrypt_round-AreWords r)

  -- The last round of decryption can be split off.
  decrypt_rounds-suc :
      (n : ℕ) (r : Rounds)
      → decrypt_rounds key (suc n) r ≡ decrypt_round key (decrypt_rounds key n r)
  unfolding decrypt_rounds
  decrypt_rounds-suc zero r = refl
  decrypt_rounds-suc (suc n) r = decrypt_rounds-suc n (decrypt_round key r)

  -- Any number of rounds is undone.
  decrypt_rounds-encrypt_rounds :
      (n : ℕ) (r : Rounds) → AreWords r → decrypt_rounds key n (encrypt_rounds key n r) ≡ r
  unfolding encrypt_rounds
  decrypt_rounds-encrypt_rounds zero r w = unfold decrypt_rounds in refl
  decrypt_rounds-encrypt_rounds (suc n) r w =
      decrypt_rounds-suc n (encrypt_rounds key n (encrypt_round key r))
      ∙ ap (decrypt_round key)
          (decrypt_rounds-encrypt_rounds n (encrypt_round key r) (encrypt_round-AreWords r))
      ∙ decrypt_round-encrypt_round r w

  -- The key schedule's sum after `n` rounds.
  encrypt_rounds-sum :
      (n : ℕ) (r : Rounds)
      → r.sum < 2 ^ 32
      → (encrypt_rounds key n r).sum ≡ (r.sum + n * tea_delta) % 2 ^ 32
  unfolding encrypt_rounds encrypt_round
  encrypt_rounds-sum zero r h = omega arith
  encrypt_rounds-sum (suc n) r h =
      omega (arith, encrypt_rounds-sum n (encrypt_round key r) (omega arith))

  encrypted-AreWords : (n : ℕ) → AreWords (encrypt_rounds key 16 (split 0 n))
  encrypted-AreWords n = encrypt_rounds-AreWords 16 (split 0 n) (omega arith)

  -- `decrypt` starts from the variables that `encrypt` ended with.
  split-join_encrypted :
      (n : ℕ)
      → split (tea_delta * 2 ^ 4 % 2 ^ 32) (encrypt key n) ≡ encrypt_rounds key 16 (split 0 n)
  unfolding encrypt
  split-join_encrypted n =
      ground (arith, encrypted-AreWords n, encrypt_rounds-sum 16 (split 0 n) (omega arith))

  -- Decrypting an encrypted word gives the word back.
  pub decrypt-encrypt : (n : ℕ) → n < 2 ^ 64 → decrypt key (encrypt key n) ≡ n
  unfolding decrypt
  decrypt-encrypt n h =
      ap (λ r. join (decrypt_rounds key 16 r)) (split-join_encrypted n)
      ∙ ap join (decrypt_rounds-encrypt_rounds 16 (split 0 n) (omega arith))
      ∙ omega arith

  pub encrypt-lt : (n : ℕ) → encrypt key n < 2 ^ 64
  unfolding encrypt
  encrypt-lt n = omega (arith, encrypted-AreWords n)
