-- ===== src/Tea/Tests.antt =====
-- Runs of the cipher, and the theorems at concrete texts.
use mania.Base.{ℕ, ◌≡◌, refl, arith, List, [], ◌∷◌}
use mania.Base.Fault.{done, ◌>>=◌}
use mania.Tea.{tea_encrypt, tea_decrypt}
use mania.Tea.Block.{Tea16}
use mania.Tea.Runs.{fill_220, fill_220-IsFiller}
use mania.Tea.RoundTrip.{tea_decrypt-tea_encrypt}

abbrev sample_key : List ℕ
sample_key = 1 ∷ 2 ∷ 3 ∷ 4 ∷ 5 ∷ 6 ∷ 7 ∷ 8 ∷ 9 ∷ 10 ∷ 11 ∷ 12 ∷ 13 ∷ 14 ∷ 15 ∷ 255 ∷ []

abbrev sample_text : List ℕ
sample_text = b'h' ∷ b'e' ∷ b'l' ∷ b'l' ∷ b'o' ∷ []

tea_decrypt-tea_encrypt_example :
    (tea_encrypt fill_220 sample_text sample_key >>= λ cipher. tea_decrypt cipher sample_key)
    ≡ done sample_text
tea_decrypt-tea_encrypt_example =
    tea_decrypt-tea_encrypt fill_220 sample_text sample_key fill_220-IsFiller (omega arith) refl

abbrev sample_cipher : Tea16
sample_cipher = record { k0 = 1; k1 = 2; k2 = 3; k3 = 0xFFFFFFFF }
