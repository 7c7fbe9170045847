-- ===== src/Login/Wrapper/Answer.antt =====
-- What `parse_wtlogin_packet` makes of an answer, and of packets that are none.
use mania.Base.{
  ℕ, ◌+◌, ◌-◌, ◌≡◌, ◌≢◌, refl, arith, List, [], ◌∷◌, ◌++◌, length, length-append,
  take-append_length, drop-append_length, ne→==, le→leb, drop,
}
use mania.Base.Bytes.{AreBytes, be16, be32, from_be}
use mania.Base.Fault.{done, ok, err}
use mania.Base.Text.{codes}
use mania.Context.{Context}
use mania.Login.Wrapper.{parse_wtlogin_packet, parse_fields, split_tail, decrypt_body}
use mania.Packet.Errors.{other_error}
use mania.Packet.Reader.{u8, u16, u32, bytes, get_uint}
use mania.Packet.Reader.Reads.{Reads, Reads-split_to, Reads-u8}
use mania.Tea.{tea_encrypt, tea_decrypt}
use mania.Tea.RoundTrip.{IsFiller, tea_decrypt-tea_encrypt}

-- Any bytes are a number, which the envelope does not look at.
Reads-get_uint : (n : ℕ) (bs : List ℕ) → n ≡ length bs → Reads (get_uint n) bs (from_be bs)
unfolding get_uint
Reads-get_uint n bs e = record { at = λ rest. rw ((Reads-split_to n bs e).at rest) }

-- Length, version, command, sequence, account, flag and retry time.
pub record Fields : Type 0 where
  pub length_field : ℕ
  pub ver : ℕ
  pub cmd : ℕ
  pub seq : ℕ
  pub uin : ℕ
  pub flag : ℕ
  pub retry_time : ℕ

abbrev pub answer : Fields → List ℕ → ℕ → List ℕ
answer h cipher tail =
    2
    ∷ (be16 h.length_field
        ++ (be16 h.ver
            ++ (be16 h.cmd
                ++ (be16 h.seq
                    ++ (be32 h.uin
                        ++ ((h.flag ∷ []) ++ (be16 h.retry_time ++ (cipher ++ (tail ∷ [])))))))))

parse_fields-answer :
    (h : Fields) (rest : List ℕ)
    → parse_fields (
        be16 h.length_field
        ++ (be16 h.ver
            ++ (be16 h.cmd
                ++ (be16 h.seq ++ (be32 h.uin ++ ((h.flag ∷ []) ++ (be16 h.retry_time ++ rest)))))))
      ≡ done (rest, [])
unfolding parse_fields u8 u16 u32 bytes
parse_fields-answer h rest = rw (
  (Reads-get_uint 2 (be16 h.length_field) refl).at (
      be16 h.ver
      ++ (be16 h.cmd
          ++ (be16 h.seq ++ (be32 h.uin ++ ((h.flag ∷ []) ++ (be16 h.retry_time ++ rest)))))),
  (Reads-get_uint 2 (be16 h.ver) refl).at (
      be16 h.cmd ++ (be16 h.seq ++ (be32 h.uin ++ ((h.flag ∷ []) ++ (be16 h.retry_time ++ rest))))),
  (Reads-get_uint 2 (be16 h.cmd) refl).at
      (be16 h.seq ++ (be32 h.uin ++ ((h.flag ∷ []) ++ (be16 h.retry_time ++ rest)))),
  (Reads-get_uint 2 (be16 h.seq) refl).at
      (be32 h.uin ++ ((h.flag ∷ []) ++ (be16 h.retry_time ++ rest))),
  (Reads-get_uint 4 (be32 h.uin) refl).at ((h.flag ∷ []) ++ (be16 h.retry_time ++ rest)),
  (Reads-get_uint 1 (h.flag ∷ []) refl).at (be16 h.retry_time ++ rest),
  (Reads-get_uint 2 (be16 h.retry_time) refl).at rest,
)

split_tail-append :
    (ctx : Context) (cipher : List ℕ) (tail : ℕ)
    → split_tail ctx (cipher ++ (tail ∷ [])) ≡ decrypt_body ctx cipher (tail ∷ [])
unfolding split_tail
split_tail-append ctx cipher tail =
    let whole = cipher ++ (tail ∷ []) in
    let n : length whole ≡ length cipher + 1 = length-append cipher (tail ∷ []) in
    let last : length whole - 1 ≡ length cipher = omega (arith, n) in
    rw (
      le→leb 1 (length whole) (omega (arith, n)),
      last,
      take-append_length cipher (tail ∷ []),
      drop-append_length cipher (tail ∷ []),
    )

-- An answer whose body some server encrypted with the shared key is opened to that body, whatever
-- the other fields hold.
pub parse_wtlogin_packet-answer :
    (ctx : Context) (h : Fields) (fill : ℕ → List ℕ) (text cipher : List ℕ)
    → IsFiller fill
    → AreBytes text
    → length ctx.login_p256.shared_key ≡ 16
    → tea_encrypt fill text ctx.login_p256.shared_key ≡ done cipher
    → parse_wtlogin_packet ctx (answer h cipher 3) ≡ done (ok text)
unfolding parse_wtlogin_packet decrypt_body
parse_wtlogin_packet-answer ctx h fill text cipher filler ht k e =
    let opened : tea_decrypt cipher ctx.login_p256.shared_key ≡ done text =
      rw (e) at (tea_decrypt-tea_encrypt fill text ctx.login_p256.shared_key filler ht k) in
    rw (
      (Reads-u8 2).at (drop 1 (answer h cipher 3)),
      parse_fields-answer h (cipher ++ (3 ∷ [])),
      split_tail-append ctx cipher 3,
      opened,
    )

-- A packet that starts with another byte than 2, or whose answer ends with another byte than 3, is
-- an error that says so.
pub parse_wtlogin_packet_refused :
    (ctx : Context) (h : Fields) (cipher : List ℕ) (header tail : ℕ) (rest : List ℕ)
    → header ≢ 2
    → tail ≢ 3
    → (parse_wtlogin_packet ctx (header ∷ rest)
        ≡ done (err (other_error (codes "invalid packet header when parse_wtlogin_packet"))))
      × (parse_wtlogin_packet ctx (answer h cipher tail)
          ≡ done (err (other_error (codes "invalid packet end when parse_wtlogin_packet"))))
unfolding parse_wtlogin_packet decrypt_body
parse_wtlogin_packet_refused ctx h cipher header tail rest nh nt = (
  rw ((Reads-u8 header).at rest, ne→== header 2 nh),
  rw (
    (Reads-u8 2).at (drop 1 (answer h cipher tail)),
    parse_fields-answer h (cipher ++ (tail ∷ [])),
    split_tail-append ctx cipher tail,
    ne→== tail 3 nt,
  ),
)
