-- ===== src/Sso/Tests.antt =====
-- Packets of a server at concrete bytes.
use mania.Base.{ℕ, ◌≡◌, refl, List, [], ◌∷◌, Option, some, arith, ◌<◌, ◌^◌}
use mania.Base.Fault.{done, err}
use mania.Base.Utf8.{is_utf8}
use mania.Context.Example.{fresh}
use mania.Packet.Errors.{uin_mismatch, unknown_sso_packet_type}
use mania.Packet.Reader.{section, bytes}
use mania.Sso.Answer.{SsoAnswer, FitsAnswer, sso_bytes, outcome, counted}
use mania.Sso.Parse.{parse}
use mania.Sso.Service.{
  Service, FitsService, service_bytes, parse-encrypted, parse-compressed, parse-by_account,
  with_account,
}
use mania.Sso.Uin.{parse_u32}
use mania.Tea.Runs.{fill_220, fill_220-IsFiller, sso_answer_encrypted, sso_answer_run}

-- A decoder that inflates everything to one byte.
abbrev inflate : List ℕ → Option (List ℕ)
inflate bs = some (42 ∷ [])

abbrev service : ℕ → Service
service auth_flag = record { length_field = 0; auth_flag = auth_flag; flag = 0; uin = b'0' ∷ [] }

service-FitsService : (auth_flag : ℕ) → FitsService (service auth_flag)
unfolding is_utf8
service-FitsService auth_flag = record {
  length_field = omega arith;
  uin = omega arith;
  uin_text = refl;
}

abbrev answer : ℕ → SsoAnswer
answer flag = record {
  length_field = 0;
  sequence = 77;
  ret_code = 0;
  extra = [];
  command = b'w' ∷ b'.' ∷ b'l' ∷ [];
  unknown = [];
  flag = flag;
  dummy = 9 ∷ [];
}

answer-FitsAnswer : (flag : ℕ) → flag < 2 ^ 32 → FitsAnswer (answer flag)
unfolding is_utf8
answer-FitsAnswer flag h = record {
  length_field = omega arith;
  sequence = omega arith;
  ret_code = omega arith;
  extra = omega arith;
  command = omega arith;
  unknown = omega arith;
  flag = h;
  dummy = omega arith;
  extra_text = refl;
  command_text = refl;
}

parse-encrypted_example :
    parse inflate fresh (service_bytes (service 1) 12 sso_answer_encrypted)
    ≡ outcome (answer 0) (0 ∷ 0 ∷ 0 ∷ 5 ∷ 42 ∷ [])
unfolding parse_u32
parse-encrypted_example =
    parse-encrypted inflate fresh (service 1) (service-FitsService 1) (answer 0)
      (0 ∷ 0 ∷ 0 ∷ 5 ∷ 42 ∷ []) fill_220 sso_answer_encrypted refl refl
      (answer-FitsAnswer 0 (omega arith)) refl fill_220-IsFiller (omega arith) refl sso_answer_run

parse-compressed_example :
    (parse inflate fresh
        (service_bytes (service 0) 12 (sso_bytes (answer 1) (counted (7 ∷ 8 ∷ []))))
      ≡ outcome (answer 1) (counted (42 ∷ [])))
    × (section bytes (counted (42 ∷ [])) ≡ done (42 ∷ [], []))
unfolding parse_u32
parse-compressed_example =
    parse-compressed inflate fresh (service 0) (service-FitsService 0) (answer 1) (7 ∷ 8 ∷ [])
      (42 ∷ []) refl refl (answer-FitsAnswer 1 (omega arith)) (omega arith) (omega arith)
      (omega arith) refl

abbrev stranger : Service
stranger = record { length_field = 0; auth_flag = 1; flag = 0; uin = b'1' ∷ b'2' ∷ [] }

stranger-FitsService : FitsService stranger
unfolding is_utf8
stranger-FitsService = record { length_field = omega arith; uin = omega arith; uin_text = refl }

parse-by_account_example :
    (parse inflate fresh (service_bytes stranger 12 (1 ∷ [])) ≡ done (err (uin_mismatch 0 12)))
    × (parse inflate fresh (service_bytes stranger 13 (1 ∷ []))
        ≡ parse inflate (with_account 12 fresh) (service_bytes stranger 12 (1 ∷ [])))
    × (parse inflate fresh (service_bytes stranger 14 (1 ∷ []))
        ≡ done (err (unknown_sso_packet_type 14)))
unfolding parse_u32
parse-by_account_example =
    parse-by_account inflate fresh stranger stranger-FitsService 12 14 (1 ∷ []) refl (omega arith)
      (omega arith) (omega arith) (omega arith)
