-- ===== src/Operations/Deadline.antt =====
-- mania/src/core/operation/wt_op.rs: the loop of login_by_qrcode comes to an end.
use mania.Base.{
  ℕ, zero, suc, ◌+◌, ◌*◌, ◌≤◌, ◌<◌, List, Option, some, none, ltb, ltb→le, Bool-cases, ◌≡◌, refl,
  inl, inr, arith,
}
use mania.Base.Fault.{Fault, done, panic, Result, ok, err}
use mania.Context.{Context}
use mania.Errors.{ManiaError}
use mania.Login.Types.{
  TransEmp12Res, confirmed, code_expired, waiting_for_scan, waiting_for_confirm, canceled,
}
use mania.Operations.Qrcode.{
  generic, Turn, query_trans_tmp_status, store_confirmed, LoginEnd, finished, cut_off, panicked,
  unfinished, do_wt_login, within, on_status, scan, login_by_qrcode,
}

module _ (failed_text : ℕ → Option (List ℕ) → List ℕ) (P : LoginEnd → Type 0)
    (cut : P (cut_off (generic "QR code scan timed out after 120s!"))) where
  -- A wait that ends in time goes on no later than the deadline.
  pub within_lem :
      (now : ℕ) (took : Option ℕ) (rest : ℕ → LoginEnd)
      → ((later : ℕ) → (d : ℕ) → took ≡ some d → later ≡ now + d → later ≤ 120000 → P (rest later))
      → P (within failed_text now took rest)
  unfolding within
  within_lem now none rest h = cut
  within_lem now (some d) rest h = elim (Bool-cases (ltb 120000 (now + d))) [
    | inl late ↦ rw (late) cut
    | inr in_time ↦ rw (in_time) (h (now + d) d refl refl (ltb→le 120000 (now + d) in_time))
  ]

-- The loop has ended, by the deadline if with a result of its own.
abbrev pub EndsInTime : LoginEnd → Type 0
EndsInTime (finished time r ctx) = time ≤ 120000
EndsInTime (cut_off r) = r ≡ generic "QR code scan timed out after 120s!"
EndsInTime panicked = Unit {0}
EndsInTime unfinished = ⊥

took_of : {d : ℕ} → some 2000 ≡ some d → d ≡ 2000
took_of e = cc (e)

late : (now : ℕ) → now ≤ 120000 → 120000 < now + 2000 * 0 → ⊥
late now n enough = omega arith

more :
    (now fuel later later' d : ℕ)
    → later ≡ now + d
    → later' ≡ later + 2000
    → 120000 < now + 2000 * suc fuel
    → 120000 < later' + 2000 * fuel
more now fuel later later' d l l' enough = omega arith

module _ (failed_text : ℕ → Option (List ℕ) → List ℕ) (turns : ℕ → Turn) where
  on_status-EndsInTime :
      (turn : Turn) (again : ℕ → Context → LoginEnd) (now : ℕ)
      (r : Fault (Result ManiaError TransEmp12Res × Context))
      → now ≤ 120000
      → ((later : ℕ) (ctx : Context)
          → later ≡ now + 2000
          → later ≤ 120000
          → EndsInTime (again later ctx))
      → EndsInTime (on_status failed_text turn again now r)
  unfolding on_status
  on_status-EndsInTime turn again now panic n h = tt
  on_status-EndsInTime turn again now (done (err e, ctx)) n h = n
  on_status-EndsInTime turn again now (done (ok waiting_for_scan, ctx)) n h =
      within_lem failed_text EndsInTime refl now (some 2000) (λ now. again now ctx)
        λ later d e l n'. h later ctx (rw (l) (omega (arith, took_of e))) n'
  on_status-EndsInTime turn again now (done (ok waiting_for_confirm, ctx)) n h =
      within_lem failed_text EndsInTime refl now (some 2000) (λ now. again now ctx)
        λ later d e l n'. h later ctx (rw (l) (omega (arith, took_of e))) n'
  on_status-EndsInTime turn again now (done (ok (confirmed d), ctx)) n h =
      within_lem failed_text EndsInTime refl now turn.login_took
        (λ now.
          finished now (do_wt_login failed_text turn.login)
            (turn.login_stores (store_confirmed d ctx)))
        λ later d e l n'. n'
  on_status-EndsInTime turn again now (done (ok code_expired, ctx)) n h = n
  on_status-EndsInTime turn again now (done (ok canceled, ctx)) n h = n

  scan-EndsInTime :
      (fuel k now : ℕ) (ctx : Context)
      → now ≤ 120000
      → 120000 < now + 2000 * fuel
      → EndsInTime (scan failed_text turns fuel k now ctx)
  unfolding scan
  scan-EndsInTime zero k now ctx n enough = absurd (late now n enough)
  scan-EndsInTime (suc fuel) k now ctx n enough =
      within_lem failed_text EndsInTime refl now (turns k).took _ λ later d e l n'.
        on_status-EndsInTime (turns k) (scan failed_text turns fuel (k + 1)) later
          (query_trans_tmp_status (turns k) ctx) n'
          λ later' ctx' l' n''.
            scan-EndsInTime fuel (k + 1) later' ctx' n'' (more now fuel later later' d l l' enough)

  -- Whatever the server answers in each turn, and however long it takes or if it never answers, the
  -- loop ends: with a result of its own in at most 120 seconds, with the error of the timeout, or by
  -- the panic on an answer that is no Emp12; sixty-one turns are enough.
  pub login_by_qrcode-EndsInTime :
      (ctx : Context) → EndsInTime (login_by_qrcode failed_text turns ctx)
  unfolding login_by_qrcode
  login_by_qrcode-EndsInTime ctx = scan-EndsInTime 61 0 0 ctx (omega arith) (omega arith)
