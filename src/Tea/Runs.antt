-- ===== src/Tea/Runs.antt =====
-- Texts that the cipher was run on, for the tests of its callers.
use mania.Base.{ℕ, zero, suc, ◌≡◌, refl, arith, List, [], ◌∷◌, replicate, length-replicate}
use mania.Base.Bytes.{AreBytes}
use mania.Base.Fault.{done}
use mania.Tea.{tea_encrypt, plaintext, read_blocks, encrypt_blocks, words, unwords}
use mania.Tea.Block.{new, encrypt, encrypt_rounds, encrypt_round, mix}
use mania.Tea.RoundTrip.{IsFiller}

-- What a debug build fills in.
abbrev pub fill_220 : ℕ → List ℕ
fill_220 n = replicate n 220

replicate-AreBytes : (n : ℕ) → AreBytes (replicate n 220)
replicate-AreBytes zero = tt
replicate-AreBytes (suc n) = (omega arith, replicate-AreBytes n)

pub fill_220-IsFiller : IsFiller fill_220
fill_220-IsFiller = record { size = λ n. length-replicate n 220; bytes = replicate-AreBytes }

-- An answer to a login with no TLVs at all.
abbrev pub empty_set : List ℕ
empty_set = 0 ∷ 0 ∷ 0 ∷ 0 ∷ 0 ∷ []

abbrev pub empty_set_encrypted : List ℕ
empty_set_encrypted =
    93 ∷ 103 ∷ 22 ∷ 47 ∷ 88 ∷ 140 ∷ 108 ∷ 138 ∷ 122 ∷ 80 ∷ 116 ∷ 254 ∷ 156 ∷ 102 ∷ 88 ∷ 25 ∷ []

pub empty_set_run : tea_encrypt fill_220 empty_set (replicate 16 1) ≡ done empty_set_encrypted
unfolding tea_encrypt plaintext read_blocks encrypt_blocks words unwords new encrypt encrypt_rounds
    encrypt_round mix
empty_set_run = refl

-- An answer that the QR code has not been scanned.
abbrev pub waiting : List ℕ
waiting =
    0 ∷ 0 ∷ 0 ∷ 0 ∷ 0 ∷ 0 ∷ 0 ∷ 0 ∷ 0 ∷ 18 ∷ 0 ∷ 0 ∷ 0 ∷ 0 ∷ 0 ∷ 0 ∷ 0 ∷ 0 ∷ 0 ∷ 0 ∷ 0 ∷ 0 ∷ 0 ∷ 0
    ∷ 0 ∷ 0 ∷ 0 ∷ 0 ∷ 0 ∷ 0 ∷ 0 ∷ 0 ∷ 0 ∷ 0 ∷ 0 ∷ 0 ∷ 0 ∷ 0 ∷ 0 ∷ 0 ∷ 0 ∷ 0 ∷ 0 ∷ 0 ∷ 0 ∷ 0 ∷ 0 ∷ 0
    ∷ 0 ∷ 0 ∷ 0 ∷ 0 ∷ 0 ∷ 0 ∷ 48 ∷ []

abbrev pub waiting_encrypted : List ℕ
waiting_encrypted =
    158 ∷ 191 ∷ 30 ∷ 252 ∷ 1 ∷ 171 ∷ 213 ∷ 8 ∷ 113 ∷ 221 ∷ 187 ∷ 235 ∷ 2 ∷ 151 ∷ 41 ∷ 176 ∷ 222
    ∷ 206 ∷ 124 ∷ 28 ∷ 252 ∷ 44 ∷ 87 ∷ 35 ∷ 2 ∷ 218 ∷ 45 ∷ 62 ∷ 116 ∷ 11 ∷ 149 ∷ 208 ∷ 128 ∷ 36
    ∷ 207 ∷ 88 ∷ 57 ∷ 84 ∷ 210 ∷ 164 ∷ 71 ∷ 175 ∷ 202 ∷ 78 ∷ 137 ∷ 173 ∷ 34 ∷ 212 ∷ 206 ∷ 147 ∷ 195
    ∷ 92 ∷ 123 ∷ 202 ∷ 45 ∷ 101 ∷ 195 ∷ 181 ∷ 12 ∷ 125 ∷ 117 ∷ 164 ∷ 120 ∷ 84 ∷ 113 ∷ 238 ∷ 175
    ∷ 214 ∷ 238 ∷ 200 ∷ 190 ∷ 197 ∷ []

pub waiting_run : tea_encrypt fill_220 waiting (replicate 16 1) ≡ done waiting_encrypted
unfolding tea_encrypt plaintext read_blocks encrypt_blocks words unwords new encrypt encrypt_rounds
    encrypt_round mix
waiting_run = refl

-- An inner packet: number 77, the command w.l and a payload of five bytes.
abbrev pub sso_answer : List ℕ
sso_answer =
    0 ∷ 0 ∷ 0 ∷ 0 ∷ 0 ∷ 0 ∷ 0 ∷ 77 ∷ 0 ∷ 0 ∷ 0 ∷ 0 ∷ 0 ∷ 0 ∷ 0 ∷ 4 ∷ 0 ∷ 0 ∷ 0 ∷ 7 ∷ 119 ∷ 46 ∷ 108
    ∷ 0 ∷ 0 ∷ 0 ∷ 4 ∷ 0 ∷ 0 ∷ 0 ∷ 0 ∷ 0 ∷ 0 ∷ 0 ∷ 1 ∷ 9 ∷ 0 ∷ 0 ∷ 0 ∷ 5 ∷ 42 ∷ []

abbrev pub sso_answer_encrypted : List ℕ
sso_answer_encrypted =
    23 ∷ 54 ∷ 127 ∷ 223 ∷ 66 ∷ 78 ∷ 111 ∷ 210 ∷ 105 ∷ 59 ∷ 74 ∷ 177 ∷ 74 ∷ 238 ∷ 69 ∷ 239 ∷ 119
    ∷ 241 ∷ 147 ∷ 199 ∷ 200 ∷ 104 ∷ 109 ∷ 249 ∷ 114 ∷ 92 ∷ 173 ∷ 86 ∷ 86 ∷ 212 ∷ 40 ∷ 230 ∷ 184
    ∷ 201 ∷ 193 ∷ 115 ∷ 41 ∷ 185 ∷ 40 ∷ 131 ∷ 119 ∷ 92 ∷ 242 ∷ 123 ∷ 105 ∷ 93 ∷ 182 ∷ 246 ∷ 202 ∷ 11
    ∷ 239 ∷ 205 ∷ 26 ∷ 174 ∷ 177 ∷ 47 ∷ []

pub sso_answer_run : tea_encrypt fill_220 sso_answer (replicate 16 0) ≡ done sso_answer_encrypted
unfolding tea_encrypt plaintext read_blocks encrypt_blocks words unwords new encrypt encrypt_rounds
    encrypt_round mix
sso_answer_run = refl

-- The inner packet of a heartbeat, number 5000001.
abbrev pub sso_request : List ℕ
sso_request =
    0 ∷ 0 ∷ 0 ∷ 115 ∷ 0 ∷ 76 ∷ 75 ∷ 65 ∷ 32 ∷ 5 ∷ 233 ∷ 184 ∷ 0 ∷ 0 ∷ 8 ∷ 4 ∷ 2 ∷ 0 ∷ 0 ∷ 0 ∷ 0 ∷ 0
    ∷ 0 ∷ 0 ∷ 0 ∷ 0 ∷ 0 ∷ 0 ∷ 0 ∷ 0 ∷ 0 ∷ 4 ∷ 0 ∷ 0 ∷ 0 ∷ 19 ∷ 72 ∷ 101 ∷ 97 ∷ 114 ∷ 116 ∷ 98 ∷ 101
    ∷ 97 ∷ 116 ∷ 46 ∷ 65 ∷ 108 ∷ 105 ∷ 118 ∷ 101 ∷ 0 ∷ 0 ∷ 0 ∷ 4 ∷ 0 ∷ 0 ∷ 0 ∷ 36 ∷ 48 ∷ 48 ∷ 48
    ∷ 49 ∷ 48 ∷ 50 ∷ 48 ∷ 51 ∷ 48 ∷ 52 ∷ 48 ∷ 53 ∷ 48 ∷ 54 ∷ 48 ∷ 55 ∷ 48 ∷ 56 ∷ 48 ∷ 57 ∷ 48 ∷ 97
    ∷ 48 ∷ 98 ∷ 48 ∷ 99 ∷ 48 ∷ 100 ∷ 48 ∷ 101 ∷ 48 ∷ 102 ∷ 0 ∷ 0 ∷ 0 ∷ 4 ∷ 0 ∷ 14 ∷ 51 ∷ 46 ∷ 50
    ∷ 46 ∷ 49 ∷ 53 ∷ 45 ∷ 51 ∷ 48 ∷ 51 ∷ 54 ∷ 54 ∷ 0 ∷ 0 ∷ 0 ∷ 6 ∷ 116 ∷ 114 ∷ 0 ∷ 0 ∷ 0 ∷ 8 ∷ 0 ∷ 0
    ∷ 0 ∷ 4 ∷ []

abbrev pub sso_request_encrypted : List ℕ
sso_request_encrypted =
    30 ∷ 180 ∷ 114 ∷ 105 ∷ 38 ∷ 64 ∷ 177 ∷ 223 ∷ 150 ∷ 247 ∷ 230 ∷ 202 ∷ 54 ∷ 26 ∷ 11 ∷ 110 ∷ 18
    ∷ 31 ∷ 244 ∷ 71 ∷ 221 ∷ 250 ∷ 124 ∷ 228 ∷ 91 ∷ 220 ∷ 111 ∷ 199 ∷ 168 ∷ 67 ∷ 65 ∷ 123 ∷ 176 ∷ 2
    ∷ 151 ∷ 224 ∷ 19 ∷ 202 ∷ 194 ∷ 46 ∷ 103 ∷ 217 ∷ 112 ∷ 32 ∷ 161 ∷ 205 ∷ 162 ∷ 44 ∷ 132 ∷ 182
    ∷ 111 ∷ 185 ∷ 151 ∷ 171 ∷ 195 ∷ 30 ∷ 151 ∷ 19 ∷ 185 ∷ 81 ∷ 133 ∷ 28 ∷ 213 ∷ 186 ∷ 212 ∷ 168
    ∷ 240 ∷ 109 ∷ 48 ∷ 237 ∷ 21 ∷ 204 ∷ 50 ∷ 230 ∷ 118 ∷ 115 ∷ 140 ∷ 224 ∷ 117 ∷ 155 ∷ 157 ∷ 231
    ∷ 194 ∷ 178 ∷ 222 ∷ 159 ∷ 67 ∷ 187 ∷ 248 ∷ 116 ∷ 31 ∷ 45 ∷ 162 ∷ 176 ∷ 220 ∷ 64 ∷ 126 ∷ 207
    ∷ 126 ∷ 173 ∷ 34 ∷ 11 ∷ 203 ∷ 184 ∷ 209 ∷ 199 ∷ 221 ∷ 49 ∷ 11 ∷ 210 ∷ 216 ∷ 48 ∷ 231 ∷ 62 ∷ 134
    ∷ 171 ∷ 252 ∷ 88 ∷ 196 ∷ 231 ∷ 50 ∷ 240 ∷ 239 ∷ 15 ∷ 136 ∷ 54 ∷ 250 ∷ 220 ∷ 23 ∷ 60 ∷ 175 ∷ 127
    ∷ 201 ∷ 167 ∷ 204 ∷ 124 ∷ []

pub sso_request_run : tea_encrypt fill_220 sso_request (replicate 16 0) ≡ done sso_request_encrypted
unfolding tea_encrypt plaintext read_blocks encrypt_blocks words unwords new encrypt encrypt_rounds
    encrypt_round mix
sso_request_run = refl

-- What a login gives: six TLVs.
abbrev pub login_set : List ℕ
login_set =
    0 ∷ 6 ∷ 1 ∷ 10 ∷ 0 ∷ 1 ∷ 1 ∷ 1 ∷ 67 ∷ 0 ∷ 1 ∷ 2 ∷ 3 ∷ 5 ∷ 0 ∷ 16 ∷ 0 ∷ 1 ∷ 2 ∷ 3 ∷ 4 ∷ 5 ∷ 6 ∷ 7
    ∷ 8 ∷ 9 ∷ 10 ∷ 11 ∷ 12 ∷ 13 ∷ 14 ∷ 15 ∷ 1 ∷ 6 ∷ 0 ∷ 1 ∷ 3 ∷ 5 ∷ 67 ∷ 0 ∷ 1 ∷ 4 ∷ 1 ∷ 26 ∷ 0 ∷ 7
    ∷ 0 ∷ 0 ∷ 20 ∷ 1 ∷ 2 ∷ 104 ∷ 105 ∷ []

abbrev pub login_set_encrypted : List ℕ
login_set_encrypted =
    95 ∷ 62 ∷ 157 ∷ 39 ∷ 247 ∷ 144 ∷ 62 ∷ 191 ∷ 0 ∷ 96 ∷ 64 ∷ 167 ∷ 29 ∷ 216 ∷ 157 ∷ 30 ∷ 26 ∷ 47
    ∷ 157 ∷ 138 ∷ 240 ∷ 184 ∷ 70 ∷ 92 ∷ 236 ∷ 155 ∷ 130 ∷ 106 ∷ 73 ∷ 100 ∷ 237 ∷ 215 ∷ 145 ∷ 239 ∷ 3
    ∷ 209 ∷ 70 ∷ 162 ∷ 60 ∷ 109 ∷ 167 ∷ 116 ∷ 133 ∷ 83 ∷ 205 ∷ 126 ∷ 12 ∷ 163 ∷ 66 ∷ 243 ∷ 180 ∷ 240
    ∷ 116 ∷ 146 ∷ 228 ∷ 87 ∷ 152 ∷ 143 ∷ 84 ∷ 228 ∷ 155 ∷ 54 ∷ 13 ∷ 232 ∷ []

pub login_set_run : tea_encrypt fill_220 login_set (replicate 16 0) ≡ done login_set_encrypted
unfolding tea_encrypt plaintext read_blocks encrypt_blocks words unwords new encrypt encrypt_rounds
    encrypt_round mix
login_set_run = refl
