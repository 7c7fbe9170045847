-- ===== src/Login/WtLogin/Atomic.antt =====
-- A login that fails stores nothing.
use mania.Base.{ℕ, ◌≡◌, List, ◌==◌, Bool-cases, inl, inr}
use mania.Base.Fault.{done, err}
use mania.Context.{Context}
use mania.Event.{EventError}
use mania.Login.Step.Errors.{
  KeepsOnError, load-ReadsOnly, lift-ReadsOnly, store-Succeeds, pure-Succeeds, >>=-Succeeds,
  >>=-KeepsOnError, Succeeds-KeepsOnError,
}
use mania.Login.WtLogin.{parse_accepted, parse_refused, parse_answer, parse_wtlogin}
use mania.Tlv.Set.{TlvSet}
use mania.Tlv.Writer.{TlvProtos}

module _ (protos : TlvProtos) (md5 : List ℕ → List ℕ) (now : ℕ) where
  parse_refused-KeepsOnError :
      (typ : ℕ) (original_tlvs : TlvSet)
      → KeepsOnError (parse_refused protos md5 now typ original_tlvs)
  unfolding parse_refused
  parse_refused-KeepsOnError typ original_tlvs =
      >>=-KeepsOnError _ _ (lift-ReadsOnly _) λ message. Succeeds-KeepsOnError _ (pure-Succeeds _)

  parse_accepted-KeepsOnError :
      (original_tlvs : TlvSet) → KeepsOnError (parse_accepted protos md5 now original_tlvs)
  unfolding parse_accepted
  parse_accepted-KeepsOnError original_tlvs = >>=-KeepsOnError _ _ load-ReadsOnly λ ctx.
      >>=-KeepsOnError _ _ (lift-ReadsOnly _) λ enc_tlvs_data.
        >>=-KeepsOnError _ _ (lift-ReadsOnly _) λ dec_tlvs_data.
          >>=-KeepsOnError _ _ (lift-ReadsOnly _) λ tlvs.
            >>=-KeepsOnError _ _ (lift-ReadsOnly _) λ tgt.
              >>=-KeepsOnError _ _ (lift-ReadsOnly _) λ d2.
                >>=-KeepsOnError _ _ (lift-ReadsOnly _) λ d2_key.
                  >>=-KeepsOnError _ _ (lift-ReadsOnly _) λ trans_d2_key.
                    >>=-KeepsOnError _ _ (lift-ReadsOnly _) λ temp_pwd.
                      >>=-KeepsOnError _ _ (lift-ReadsOnly _) λ uid.
                        >>=-KeepsOnError _ _ (lift-ReadsOnly _) λ self_info.
                          Succeeds-KeepsOnError _ (
                            >>=-Succeeds _ _ (store-Succeeds _) λ _.
                              >>=-Succeeds _ _ (store-Succeeds _) λ _.
                                >>=-Succeeds _ _ (store-Succeeds _) λ _.
                                  >>=-Succeeds _ _ (store-Succeeds _) λ _.
                                    >>=-Succeeds _ _ (store-Succeeds _) λ _.
                                      >>=-Succeeds _ _ (store-Succeeds _) λ _.
                                        >>=-Succeeds _ _ (store-Succeeds _) λ _.
                                          >>=-Succeeds _ _ (store-Succeeds _) λ _. pure-Succeeds _)

  parse_answer-KeepsOnError :
      (typ : ℕ) (original_tlvs : TlvSet)
      → KeepsOnError (parse_answer protos md5 now typ original_tlvs)
  unfolding parse_answer
  parse_answer-KeepsOnError typ original_tlvs = elim (Bool-cases (typ == 0)) [
    | inl accepted ↦ rw (accepted) (parse_accepted-KeepsOnError original_tlvs)
    | inr refused ↦ rw (refused) (parse_refused-KeepsOnError typ original_tlvs)
  ]

  whole-KeepsOnError : (packet : List ℕ) → KeepsOnError (parse_wtlogin protos md5 now packet)
  unfolding parse_wtlogin
  whole-KeepsOnError packet = >>=-KeepsOnError _ _ load-ReadsOnly λ ctx.
      >>=-KeepsOnError _ _ (lift-ReadsOnly _) λ body.
        >>=-KeepsOnError _ _ (lift-ReadsOnly _) λ ((typ, rest), left).
          >>=-KeepsOnError _ _ (lift-ReadsOnly _)
            λ original_tlvs. parse_answer-KeepsOnError typ original_tlvs

  -- When the answer to a login gives an error, at whatever point, nothing has been stored: the
  -- context is the one that the call found.
  pub parse_wtlogin_atomic :
      (packet : List ℕ) (ctx ctx' : Context) (e : EventError)
      → parse_wtlogin protos md5 now packet ctx ≡ done (err e, ctx')
      → ctx' ≡ ctx
  unfolding KeepsOnError
  parse_wtlogin_atomic packet ctx ctx' e h = whole-KeepsOnError packet ctx ctx' e h
