-- ===== src/Tea/Block.antt =====
-- `Tea16`: sixteen rounds on two 32-bit halves, and their inverse.
pub mod Inverse
use mania.Base.{ℕ, zero, suc, ◌+◌, ◌-◌, ◌*◌, ◌/◌, ◌%◌, ◌^◌, bit_xor, List}
use mania.Base.{if◌then◌else◌, ◌==◌, length, take, drop}
use mania.Base.Bytes.{from_be}
use mania.Base.Fault.{Fault, done, panic}

abbrev pub tea_delta : ℕ
tea_delta = 0x9E3779B9

abbrev pub wrapping_add : ℕ → ℕ → ℕ
wrapping_add a b = (a + b) % 2 ^ 32

abbrev pub wrapping_sub : ℕ → ℕ → ℕ
wrapping_sub a b = (a + 2 ^ 32 - b) % 2 ^ 32

pub record Tea16 : Type 0 where
  pub k0 : ℕ
  pub k1 : ℕ
  pub k2 : ℕ
  pub k3 : ℕ

-- `GenericArray::from_slice` panics unless the key has 16 bytes.
unfoldable pub new : List ℕ → Fault Tea16
new key =
    if length key == 16
    then done (record {
      k0 = from_be (take 4 key);
      k1 = from_be (take 4 (drop 4 key));
      k2 = from_be (take 4 (drop 8 key));
      k3 = from_be (take 4 (drop 12 key));
    })
    else panic

-- The variables of the loop.
pub record Rounds : Type 0 where
  pub sum : ℕ
  pub x : ℕ
  pub y : ℕ

-- `ka.wrapping_add(v << 4) ^ v.wrapping_add(sum) ^ kb.wrapping_add(v >> 5)`
unfoldable pub mix : ℕ → ℕ → ℕ → ℕ → ℕ
mix ka kb sum v =
    bit_xor (bit_xor (wrapping_add ka (v * 2 ^ 4 % 2 ^ 32)) (wrapping_add v sum))
      (wrapping_add kb (v / 2 ^ 5))

-- `((n >> 32) as u32, n as u32)`
abbrev pub split : ℕ → ℕ → Rounds
split sum n = record { sum = sum; x = n / 2 ^ 32 % 2 ^ 32; y = n % 2 ^ 32 }

-- The halves do not overlap, so that `|` joins them as `+` does.
abbrev pub join : Rounds → ℕ
join r = r.x * 2 ^ 32 + r.y

module _ (key : Tea16) where
  unfoldable pub encrypt_round : Rounds → Rounds
  encrypt_round r =
      let sum = wrapping_add r.sum tea_delta in
      let x = wrapping_add r.x (mix key.k0 key.k1 sum r.y) in
      let y = wrapping_add r.y (mix key.k2 key.k3 sum x) in record { sum = sum; x = x; y = y }

  unfoldable pub encrypt_rounds : ℕ → Rounds → Rounds
  encrypt_rounds zero r = r
  encrypt_rounds (suc n) r = encrypt_rounds n (encrypt_round r)

  pub decrypt_round : Rounds → Rounds
  decrypt_round r =
      let y = wrapping_sub r.y (mix key.k2 key.k3 r.sum r.x) in
      let x = wrapping_sub r.x (mix key.k0 key.k1 r.sum y) in
      record { sum = wrapping_sub r.sum tea_delta; x = x; y = y }

  pub decrypt_rounds : ℕ → Rounds → Rounds
  decrypt_rounds zero r = r
  decrypt_rounds (suc n) r = decrypt_rounds n (decrypt_round r)

  unfoldable pub encrypt : ℕ → ℕ
  encrypt n = join (encrypt_rounds 16 (split 0 n))

  -- `TEA_DELTA << 4` drops the bits above the word.
  pub decrypt : ℕ → ℕ
  decrypt n = join (decrypt_rounds 16 (split (tea_delta * 2 ^ 4 % 2 ^ 32) n))
