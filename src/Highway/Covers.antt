-- ===== src/Highway/Covers.antt =====
-- mania/src/core/highway/hw_client.rs: the frames that the loop of an upload sends.
use mania.Base.{
  ℕ, zero, suc, ◌+◌, ◌-◌, ◌≤◌, Option, List, [], ◌∷◌, ◌++◌, append-nil, append_assoc, true, ltb,
  ltb→lt, ltb→le, le→ltb, length, take, drop, length-take, length-append, length-drop,
  take-append-drop, Bool-cases, ◌≡◌, ◌∙◌, sym, ap, refl, subst, inl, inr, arith,
}
use mania.Base.Fault.{done, ok}
use mania.Base.Text.{codes}
use mania.Highway.Client.{
  RequestHead, ResponseHead, HighwayClient, Upload, Round, replied, frame_of, build_frame,
  build_pic_up_head, HighwaySession,
}
use mania.Highway.Frame.{HighwayFrame}
use mania.Highway.Upload.{UploadEnd, returned, step_by, upload_loop}

abbrev pub bodies : List HighwayFrame → List ℕ
bodies [] = []
bodies (frame ∷ frames) = frame.body ++ bodies frames

empty_list : (xs : List ℕ) → length xs ≡ 0 → xs ≡ []
empty_list [] e = refl
empty_list (x ∷ xs) e = absurd (omega arith)

module _ (encode_head : RequestHead → List ℕ) (decode_head : List ℕ → Option ResponseHead)
    (digest : List ℕ → List ℕ) (client : HighwayClient) (upload : Upload) where
  -- The head of a frame: the offset, the length and the digest of its own body, and what the whole
  -- upload and the client say of themselves.
  abbrev pub Says : ℕ → HighwayFrame → Type 0
  Says offset frame =
      (head : RequestHead) × (frame.head ≡ encode_head head)
      × (head.data_offset ≡ offset)
      × (head.data_length ≡ length frame.body)
      × (head.md5 ≡ digest frame.body)
      × (head.filesize ≡ upload.size)
      × (head.file_md5 ≡ upload.md5)
      × (head.extend_info ≡ upload.ext_info)
      × (head.command_id ≡ upload.cmd)
      × (head.command ≡ codes "PicUp.DataUp")
      × (head.uin ≡ client.uin)
      × (head.service_ticket ≡ client.ticket)

  -- Each frame starts where the one before ended, says so in its head, and has from one byte to as
  -- many as a chunk.
  abbrev pub Consecutive : ℕ → List HighwayFrame → Type 0
  Consecutive offset [] = Unit {0}
  Consecutive offset (frame ∷ frames) =
      Says offset frame
      × (1 ≤ length frame.body)
      × (length frame.body ≤ client.chunk_size)
      × Consecutive (offset + length frame.body) frames

  module _ (exchange : ℕ → Round) where
    -- In each of so many turns, from a turn on, the answer says that its part has arrived.
    abbrev pub Accepting : ℕ → ℕ → Type 0
    Accepting zero turn = Unit {0}
    Accepting (suc n) turn =
        ((p : ℕ × ℕ) × (exchange turn ≡ replied (done (ok p)))) × Accepting n (suc turn)

    abbrev pub loop : List ℕ → List ℕ → ℕ → List HighwayFrame → UploadEnd × List HighwayFrame
    loop = upload_loop encode_head decode_head digest exchange client upload

    abbrev next_frame : ℕ → List ℕ → HighwayFrame
    next_frame offset rest =
        frame_of encode_head decode_head digest client upload offset (take client.chunk_size rest)

    -- One turn, when it is accepted.
    turn :
        (offset : ℕ) (offsets rest : List ℕ) (k : ℕ) (sent : List HighwayFrame) (p : ℕ × ℕ)
        → exchange k ≡ replied (done (ok p))
        → loop (offset ∷ offsets) rest k sent
          ≡ loop offsets
              (drop client.chunk_size rest)
              (suc k)
              (sent ++ (next_frame offset rest ∷ []))
    unfolding upload_loop build_frame
    turn offset offsets rest k sent p e = rw (e) refl

    -- What the loop sends for the rest of the file.
    abbrev pub Sends : ℕ → ℕ → List ℕ → ℕ → List HighwayFrame → Type 0
    Sends fuel offset rest k sent =
        (more : List HighwayFrame) × (loop (step_by fuel offset upload.size client.chunk_size) rest
            k sent
          ≡ (returned (ok tt), sent ++ more))
        × (bodies more ≡ rest)
        × Consecutive offset more

    nothing_left :
        (fuel offset : ℕ) (rest : List ℕ) (k : ℕ) (sent : List HighwayFrame)
        → upload.size ≤ offset
        → rest ≡ []
        → Sends fuel offset rest k sent
    unfolding step_by upload_loop
    nothing_left zero offset rest k sent n e =
        ([], ap (λ s. (returned (ok tt), s)) (sym (append-nil sent)), sym e, tt)
    nothing_left (suc fuel) offset rest k sent n e = (
      [],
      rw (le→ltb offset upload.size n) (ap (λ s. (returned (ok tt), s)) (sym (append-nil sent))),
      sym e,
      tt,
    )

    step_by_on :
        (fuel offset : ℕ)
        → ltb offset upload.size ≡ true
        → step_by (suc fuel) offset upload.size client.chunk_size
          ≡ offset ∷ step_by fuel (offset + client.chunk_size) upload.size client.chunk_size
    unfolding step_by
    step_by_on fuel offset e = rw (e) refl

    -- Where nothing is left, no frame follows, at whatever offset.
    moved :
        (frames : List HighwayFrame) (o o' : ℕ)
        → length (bodies frames) ≡ 0
        → Consecutive o frames
        → Consecutive o' frames
    moved [] o o' e c = tt
    moved (f ∷ fs) o o' e (h, n, m, c) = absurd (omega (arith, length-append f.body (bodies fs)))

    next_frame-Says : (offset : ℕ) (rest : List ℕ) → Says offset (next_frame offset rest)
    unfolding frame_of build_pic_up_head
    next_frame-Says offset rest =
        let session : HighwaySession = record {
          ticket = client.ticket;
          uin = client.uin;
          cmd = upload.cmd;
          command = codes "PicUp.DataUp";
          file_md5 = upload.md5;
          file_size = upload.size;
          ext = upload.ext_info;
        } in
        let chunk = take client.chunk_size rest in
        (
          build_pic_up_head session offset (length chunk) (digest chunk),
          refl,
          refl,
          refl,
          refl,
          refl,
          refl,
          refl,
          refl,
          refl,
          refl,
          refl,
        )

    first_frame :
        (offset : ℕ) (rest : List ℕ) (more : List HighwayFrame)
        → 1 ≤ client.chunk_size
        → 1 ≤ length rest
        → bodies more ≡ drop client.chunk_size rest
        → Consecutive (offset + client.chunk_size) more
        → (bodies (next_frame offset rest ∷ more) ≡ rest)
          × Consecutive offset (next_frame offset rest ∷ more)
    unfolding frame_of
    first_frame offset rest more n m b c =
        let size = length-take client.chunk_size rest in
        (
          rw (b) (take-append-drop client.chunk_size rest),
          (
            next_frame-Says offset rest,
            omega (arith, size),
            omega (arith, size),
            elim (Bool-cases (ltb (length rest) client.chunk_size)) [
              | inl last ↦
                  let none_left : length (bodies more) ≡ 0 =
                    ap length b
                    ∙ (length-drop client.chunk_size rest
                        ∙ omega (arith, ltb→lt (length rest) client.chunk_size last)) in
                  moved more (offset + client.chunk_size)
                    (offset + length (take client.chunk_size rest)) none_left c
              | inr whole ↦
                  let full : length (take client.chunk_size rest) ≡ client.chunk_size =
                    omega (arith, size, ltb→le (length rest) client.chunk_size whole) in
                  rw (full) c
            ],
          ),
        )

    loop_turn :
        (fuel offset : ℕ) (rest : List ℕ) (k : ℕ) (sent : List HighwayFrame)
        → 1 ≤ client.chunk_size
        → upload.size - offset ≡ length rest
        → length rest ≤ suc fuel
        → ltb offset upload.size ≡ true
        → Accepting
            (suc (length (step_by fuel (offset + client.chunk_size) upload.size client.chunk_size)))
            k
        → ((offset : ℕ) (rest : List ℕ) (k : ℕ) (sent : List HighwayFrame)
            → 1 ≤ client.chunk_size
            → upload.size - offset ≡ length rest
            → length rest ≤ fuel
            → Accepting (length (step_by fuel offset upload.size client.chunk_size)) k
            → Sends fuel offset rest k sent)
        → Sends (suc fuel) offset rest k sent
    loop_turn fuel offset rest k sent n e m more ((p, accepted), a) ih =
        let frame = next_frame offset rest in
        let left = length-drop client.chunk_size rest in
        let below = ltb→lt offset upload.size more in
        let later =
          ih (offset + client.chunk_size) (drop client.chunk_size rest) (suc k)
            (sent ++ (frame ∷ [])) n (omega (arith, e, left)) (omega (arith, left)) a in
        let here = first_frame offset rest later.0 n (omega (arith, e, below)) later.2 later.3 in
        (
          frame ∷ later.0,
          rw (step_by_on fuel offset more) (
              turn offset (step_by fuel (offset + client.chunk_size) upload.size client.chunk_size)
                rest k sent p accepted
              ∙ (later.1
                  ∙ ap (λ s. (returned (ok tt), s)) (append_assoc sent (frame ∷ []) later.0))),
          here.0,
          here.1,
        )

    pub loop-Sends :
        (fuel offset : ℕ) (rest : List ℕ) (k : ℕ) (sent : List HighwayFrame)
        → 1 ≤ client.chunk_size
        → upload.size - offset ≡ length rest
        → length rest ≤ fuel
        → Accepting (length (step_by fuel offset upload.size client.chunk_size)) k
        → Sends fuel offset rest k sent
    loop-Sends zero offset rest k sent n e m a =
        nothing_left zero offset rest k sent (omega (arith, e)) (empty_list rest (omega (arith, e)))
    loop-Sends (suc fuel) offset rest k sent n e m a = elim (Bool-cases (ltb offset upload.size)) [
      | inl more ↦
          loop_turn fuel offset rest k sent n e m more
            (subst (λ l. Accepting (length l) k) (step_by_on fuel offset more) a) (loop-Sends fuel)
      | inr over ↦
          let late = ltb→le offset upload.size over in
          nothing_left (suc fuel) offset rest k sent late (empty_list rest (omega (arith, e)))
    ]
