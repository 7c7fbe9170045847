-- ===== src/Sso/Service.antt =====
-- The outer layer of a packet: its protocol, its account and its encryption.
use mania.Base.{
  ℕ, ◌+◌, ◌^◌, ◌<◌, ◌≡◌, ◌≢◌, ◌∙◌, sym, refl, List, [], ◌∷◌, ◌++◌, length, ==_refl, ne→==, true,
  some, Option, arith,
}
use mania.Base.Attempt.{◌>>=◌}
use mania.Base.Bytes.{AreBytes, be32}
use mania.Base.Fault.{done, err}
use mania.Base.Utf8.{is_utf8}
use mania.Context.{Context}
use mania.Packet.Errors.{uin_mismatch, unknown_sso_packet_type}
use mania.Packet.Reader.{bytes, section}
use mania.Packet.Reader.Reads.{ReadsAll-string, Reads-u8, Reads-u32, Reads-section}
use mania.Sso.{packet_type}
use mania.Sso.Answer.{
  counted, SsoAnswer, FitsAnswer, sso_bytes, outcome, parse_body-plain, parse_body-compressed,
  section_alone,
}
use mania.Sso.Fields.{service_start, service_fields}
use mania.Sso.Parse.{parse, parse_body, known_type, same_uin, authenticate, known_uin}
use mania.Sso.Uin.{parse_u32}
use mania.Tea.{tea_encrypt, tea_decrypt}
use mania.Tea.RoundTrip.{IsFiller, tea_decrypt-tea_encrypt}

pub record Service : Type 0 where
  pub length_field : ℕ
  pub auth_flag : ℕ
  pub flag : ℕ
  pub uin : List ℕ

pub record FitsService (s : Service) : Type 0 where
  pub length_field : s.length_field < 2 ^ 32
  pub uin : length s.uin + 4 < 2 ^ 32
  pub uin_text : is_utf8 s.uin ≡ true

abbrev pub service_bytes : Service → ℕ → List ℕ → List ℕ
service_bytes s protocol body =
    be32 s.length_field
    ++ (be32 protocol ++ ((s.auth_flag ∷ []) ++ ((s.flag ∷ []) ++ (counted s.uin ++ body))))

service_start-bytes :
    (s : Service) (protocol : ℕ) (body : List ℕ)
    → FitsService s
    → protocol < 2 ^ 32
    → service_start (service_bytes s protocol body)
      ≡ done (protocol, (s.auth_flag ∷ []) ++ ((s.flag ∷ []) ++ (counted s.uin ++ body)))
unfolding service_start
service_start-bytes s protocol body h hp = rw (
  (Reads-u32 s.length_field h.length_field).at
      (be32 protocol ++ ((s.auth_flag ∷ []) ++ ((s.flag ∷ []) ++ (counted s.uin ++ body)))),
  (Reads-u32 protocol hp).at ((s.auth_flag ∷ []) ++ ((s.flag ∷ []) ++ (counted s.uin ++ body))),
)

service_fields-bytes :
    (s : Service) (body : List ℕ)
    → FitsService s
    → service_fields ((s.auth_flag ∷ []) ++ ((s.flag ∷ []) ++ (counted s.uin ++ body)))
      ≡ done ((s.auth_flag, s.uin), body)
unfolding service_fields
service_fields-bytes s body h = rw (
  (Reads-u8 s.auth_flag).at ((s.flag ∷ []) ++ (counted s.uin ++ body)),
  (Reads-u8 s.flag).at (counted s.uin ++ body),
  (Reads-section (ReadsAll-string s.uin h.uin_text) h.uin).at body,
)

-- The same client, with another account.
abbrev pub with_account : ℕ → Context → Context
with_account uin ctx = record ctx { key_store = record ctx.key_store { uin = uin } }

module _ (inflate : List ℕ → Option (List ℕ)) (ctx : Context) (s : Service)
    (h : FitsService s) where
  parse-service :
      (body : List ℕ)
      → parse_u32 s.uin ≡ some ctx.key_store.uin
      → parse inflate ctx (service_bytes s 12 body)
        ≡ (authenticate ctx s.auth_flag body >>= λ plain. parse_body inflate plain)
  unfolding parse known_type same_uin known_uin packet_type
  parse-service body e = rw (
    service_start-bytes s 12 body h (omega arith),
    service_fields-bytes s body h,
    e,
    ==_refl ctx.key_store.uin,
  )

  -- A packet for this account that the server encrypted with the key of the session, as flag 1 says,
  -- is opened: its code decides between the packet in it and the error it reports.
  pub parse-encrypted :
      (a : SsoAnswer) (payload : List ℕ) (fill : ℕ → List ℕ) (cipher : List ℕ)
      → parse_u32 s.uin ≡ some ctx.key_store.uin
      → s.auth_flag ≡ 1
      → FitsAnswer a
      → a.flag ≡ 0
      → IsFiller fill
      → AreBytes (sso_bytes a payload)
      → length ctx.key_store.session.d2_key ≡ 16
      → tea_encrypt fill (sso_bytes a payload) ctx.key_store.session.d2_key ≡ done cipher
      → parse inflate ctx (service_bytes s 12 cipher) ≡ outcome a payload
  unfolding authenticate
  parse-encrypted a payload fill cipher hu flag fits plain filler hb k e =
      let opened : tea_decrypt cipher ctx.key_store.session.d2_key ≡ done (sso_bytes a payload) =
        rw (e) at (
          tea_decrypt-tea_encrypt fill (sso_bytes a payload) ctx.key_store.session.d2_key filler hb
            k) in
      rw (parse-service cipher hu, flag, opened)
        (parse_body-plain inflate a payload fits (rw (plain) refl))

  -- A compressed packet that is not encrypted gives what it inflates to behind its own length, so
  -- that reading a section off the payload, as the dispatch of events does, gives exactly that.
  pub parse-compressed :
      (a : SsoAnswer) (zipped payload : List ℕ)
      → parse_u32 s.uin ≡ some ctx.key_store.uin
      → s.auth_flag ≡ 0
      → FitsAnswer a
      → a.flag ≢ 0
      → length zipped + 4 < 2 ^ 32
      → length payload + 4 < 2 ^ 32
      → inflate zipped ≡ some payload
      → (parse inflate ctx (service_bytes s 12 (sso_bytes a (counted zipped)))
          ≡ outcome a (counted payload))
        × (section bytes (counted payload) ≡ done (payload, []))
  unfolding authenticate
  parse-compressed a zipped payload hu flag fits compressed n k e = (
    rw (parse-service (sso_bytes a (counted zipped)) hu, flag)
        (parse_body-compressed inflate a zipped payload fits (ne→== a.flag 0 compressed) n e),
    section_alone payload k,
  )

module _ (inflate : List ℕ → Option (List ℕ)) (ctx : Context) (s : Service)
    (h : FitsService s) where
  -- Protocol 13 does not look at the account.
  parse-service_13 :
      (uin : ℕ) (body : List ℕ)
      → parse_u32 s.uin ≡ some uin
      → parse inflate ctx (service_bytes s 13 body)
        ≡ (authenticate ctx s.auth_flag body >>= λ plain. parse_body inflate plain)
  unfolding parse known_type same_uin known_uin packet_type
  parse-service_13 uin body e =
      rw (service_start-bytes s 13 body h (omega arith), service_fields-bytes s body h, e) refl

  parse-other_protocol :
      (protocol : ℕ) (body : List ℕ)
      → protocol < 2 ^ 32
      → protocol ≢ 12
      → protocol ≢ 13
      → parse inflate ctx (service_bytes s protocol body)
        ≡ done (err (unknown_sso_packet_type protocol))
  unfolding parse known_type packet_type
  parse-other_protocol protocol body hp n12 n13 =
      rw (service_start-bytes s protocol body h hp, ne→== protocol 12 n12, ne→== protocol 13 n13)

  -- Whose packet it is matters in protocol 12 alone. A packet whose fields fit their sizes and whose
  -- account is a number, but not that of the client, is refused there
  -- before its body is looked at; in protocol 13 it is taken, exactly as protocol 12 takes it in a
  -- client with the same keys that has that account; and every other protocol is refused.
  pub parse-by_account :
      (uin protocol : ℕ) (body : List ℕ)
      → parse_u32 s.uin ≡ some uin
      → uin ≢ ctx.key_store.uin
      → protocol < 2 ^ 32
      → protocol ≢ 12
      → protocol ≢ 13
      → (parse inflate ctx (service_bytes s 12 body)
          ≡ done (err (uin_mismatch ctx.key_store.uin uin)))
        × (parse inflate ctx (service_bytes s 13 body)
            ≡ parse inflate (with_account uin ctx) (service_bytes s 12 body))
        × (parse inflate ctx (service_bytes s protocol body)
            ≡ done (err (unknown_sso_packet_type protocol)))
  unfolding parse known_type same_uin known_uin packet_type authenticate
  parse-by_account uin protocol body e other hp n12 n13 =
      let differs = ne→== uin ctx.key_store.uin other in
      (
        rw (
          service_start-bytes s 12 body h (omega arith),
          service_fields-bytes s body h,
          e,
          differs,
        ),
        parse-service_13 uin body e ∙ sym (parse-service inflate (with_account uin ctx) s h body e),
        parse-other_protocol protocol body hp n12 n13,
      )
