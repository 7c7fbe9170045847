-- ===== src/Login/TransEmp/Layout.antt =====
-- What `build_trans_emp_body` writes: both of its lengths are those of the bytes they stand for.
use mania.Base.{
  ℕ, ◌+◌, ◌≡◌, refl, arith, List, [], ◌∷◌, ◌++◌, length, length-append, replicate, inl, inr,
}
use mania.Base.Bytes.{be16, be32, be64}
use mania.Base.Fault.{done}
use mania.Base.Int.{to_unsigned}
use mania.Context.{Context}
use mania.Login.TransEmp.{new_packet, build_trans_emp_body}
use mania.Packet.Builder.Appends.{
  Appends, ◌⊹◌, Appends-u8, Appends-u16, Appends-u32, Appends-u64, Appends-bytes,
  Appends-write_with_length,
}
use mania.Packet.RoundTrip.{build_done}

-- The command, its fixed fields and its data, behind the length.
abbrev pub command_tail : ℕ → List ℕ → List ℕ
command_tail qr_cmd payload =
    be16 qr_cmd
    ++ (replicate 21 0
        ++ ((3 ∷ []) ++ (be16 0 ++ (be16 0x32 ++ (be32 0 ++ (be64 0 ++ (payload ++ (3 ∷ []))))))))

abbrev pub command_bytes : ℕ → ℕ → List ℕ → List ℕ
command_bytes declared qr_cmd payload = (2 ∷ []) ++ (be16 declared ++ command_tail qr_cmd payload)

Appends-new_packet :
    (qr_cmd : ℕ) (payload : List ℕ)
    → Appends (new_packet qr_cmd payload) (command_bytes (43 + length payload + 1) qr_cmd payload)
unfolding new_packet
Appends-new_packet qr_cmd payload =
    Appends-u8 2
    ⊹ Appends-u16 (43 + length payload + 1)
    ⊹ Appends-u16 qr_cmd
    ⊹ Appends-bytes (replicate 21 0)
    ⊹ Appends-u8 3
    ⊹ Appends-u16 0
    ⊹ Appends-u16 0x32
    ⊹ Appends-u32 0
    ⊹ Appends-u64 0
    ⊹ Appends-bytes payload
    ⊹ Appends-u8 3

abbrev pub request_bytes : ℕ → List ℕ → List ℕ
request_bytes app_id request =
    (0 ∷ [])
    ++ (be16 (length request)
        ++ (be32 app_id ++ (be32 0x72 ++ ((0 ∷ 0 ∷ []) ++ ((0 ∷ []) ++ request)))))

declared_length :
    (declared qr_cmd : ℕ) (payload : List ℕ)
    → length (command_bytes declared qr_cmd payload) ≡ 43 + length payload + 1
declared_length declared qr_cmd payload = omega (arith, length-append payload (3 ∷ []))

-- The body is a request with the time and a command in it, the request behind its own length modulo
-- 2^16, and the length that the command declares is the number of its bytes.
pub build_trans_emp_body-layout :
    (timestamp : ℕ) (ctx : Context) (qr_cmd : ℕ) (payload : List ℕ)
    → (declared : ℕ) × ((length (command_bytes declared qr_cmd payload) ≡ declared)
        × (build_trans_emp_body timestamp ctx qr_cmd payload
            ≡ done (
                request_bytes
                  (to_unsigned 32 ctx.app_info.app_id)
                  (be32 timestamp ++ command_bytes declared qr_cmd payload))))
unfolding build_trans_emp_body
build_trans_emp_body-layout timestamp ctx qr_cmd payload =
    let declared = 43 + length payload + 1 in
    let command = command_bytes declared qr_cmd payload in
    (
      declared,
      (
        declared_length declared qr_cmd payload,
        rw (
          build_done (Appends-new_packet qr_cmd payload),
          build_done (Appends-u32 timestamp ⊹ Appends-bytes command),
          build_done (
              Appends-u8 0
              ⊹ Appends-u16 (length (be32 timestamp ++ command))
              ⊹ Appends-u32 (to_unsigned 32 ctx.app_info.app_id)
              ⊹ Appends-u32 0x72
              ⊹ Appends-write_with_length 2 0 (inr (inl refl)) (Appends-bytes [])
              ⊹ Appends-write_with_length 1 0 (inl refl) (Appends-bytes [])
              ⊹ Appends-bytes (be32 timestamp ++ command)),
        ),
      ),
    )
