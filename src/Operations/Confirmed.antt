-- ===== src/Operations/Confirmed.antt =====
-- mania/src/core/operation/wt_op.rs: what a successful login_by_qrcode has gone through.
use mania.Base.{
  ℕ, zero, suc, ◌+◌, List, [], Option, none, some, if◌then◌else◌, ◌==◌, ==_iff, Bool-cases, ◌≡◌,
  refl, subst, inl, inr,
}
use mania.Base.Fault.{Fault, done, panic, Result, ok, err}
use mania.Context.{Context}
use mania.Errors.{ManiaError}
use mania.Login.Types.{
  TransEmp12Res, TransEmp12ConfirmedData, WtLogin, confirmed, code_expired, waiting_for_scan,
  waiting_for_confirm, canceled,
}
use mania.Operations.Qrcode.{
  Answer, refused, other_event, answered, Turn, query_trans_tmp_status, store_confirmed, LoginEnd,
  finished, cut_off, panicked, unfinished, check_code, do_wt_login, on_status, scan,
  login_by_qrcode,
}
use mania.Operations.Deadline.{within_lem}

-- The context without the three things that a confirmation brings.
abbrev pub without_keys : Context → Context
without_keys ctx = record ctx {
  session = record ctx.session { stub = record ctx.session.stub { tgtgt_key = [] } };
  key_store = record ctx.key_store {
    session = record ctx.key_store.session { temp_password = none; no_pic_sig = none };
  };
}

-- `stored` has the key, the temporary password and the signature of `d`, and is `after` otherwise.
abbrev pub KeysStored : TransEmp12ConfirmedData → Context → Context → Type 0
KeysStored d after stored =
    (stored.session.stub.tgtgt_key ≡ d.tgtgt_key)
    × (stored.key_store.session.temp_password ≡ some d.temp_password)
    × (stored.key_store.session.no_pic_sig ≡ some d.no_pic_sig)
    × (without_keys stored ≡ without_keys after)

store_confirmed-KeysStored :
    (d : TransEmp12ConfirmedData) (after : Context) → KeysStored d after (store_confirmed d after)
unfolding store_confirmed
store_confirmed-KeysStored d after = (refl, refl, refl, refl)

module _ (failed_text : ℕ → Option (List ℕ) → List ℕ) where
  check_code_ok :
      (event : WtLogin)
      → ◌≡◌ {A = Result ManiaError (Unit {0})} (check_code failed_text (ok event)) (ok tt)
      → event.code ≡ 0
  check_code_ok event e = elim (Bool-cases (event.code == 0)) [
    | inl zero_code ↦ (==_iff event.code 0).0 zero_code
    | inr other ↦
        let failed : ◌≡◌ {A = Result ManiaError (Unit {0})}
            (err (ManiaError.generic_error (failed_text event.code event.msg))) (ok tt) =
          subst
            (λ b.
              ◌≡◌ {A = Result ManiaError (Unit {0})}
                (if b
                  then ok tt
                  else err (ManiaError.generic_error (failed_text event.code event.msg)))
                (ok tt))
            other e in
        cc (failed)
  ]

  -- Only an answer with code 0 is a login.
  do_wt_login_ok :
      (answer : Answer WtLogin)
      → do_wt_login failed_text answer ≡ ok tt
      → (event : WtLogin) × (answer ≡ answered event) × (event.code ≡ 0)
  unfolding do_wt_login
  do_wt_login_ok (refused b) e = cc (e)
  do_wt_login_ok other_event e = cc (e)
  do_wt_login_ok (answered event) e = (event, refl, check_code_ok event e)

  module _ (turns : ℕ → Turn) where
    -- In turn `k` the query, made in the context `before`, gave the data `d` and left `after`.
    abbrev pub ConfirmedIn : Context → Type 0
    ConfirmedIn ctx' =
        (k : ℕ) × (before : Context) × (after : Context) × (d : TransEmp12ConfirmedData)
        × (event : WtLogin) × (stored : Context) × (query_trans_tmp_status (turns k) before
            ≡ done (ok (confirmed d), after))
        × ((turns k).login ≡ answered event)
        × (event.code ≡ 0)
        × KeysStored d after stored
        × (ctx' ≡ (turns k).login_stores stored)

    abbrev LoggedIn : LoginEnd → Type 0
    LoggedIn (finished t (ok _) ctx') = ConfirmedIn ctx'
    LoggedIn (finished t (err e) ctx') = Unit {0}
    LoggedIn (cut_off r) = Unit {0}
    LoggedIn panicked = Unit {0}
    LoggedIn unfinished = Unit {0}

    finished-LoggedIn :
        (t : ℕ) (r : Result ManiaError (Unit {0})) (ctx' : Context)
        → (r ≡ ok tt → ConfirmedIn ctx')
        → LoggedIn (finished t r ctx')
    finished-LoggedIn t (ok u) ctx' h = h refl
    finished-LoggedIn t (err e) ctx' h = tt

    on_status-LoggedIn :
        (k : ℕ) (before : Context) (again : ℕ → Context → LoginEnd) (now : ℕ)
        (r : Fault (Result ManiaError TransEmp12Res × Context))
        → query_trans_tmp_status (turns k) before ≡ r
        → ((later : ℕ) (ctx : Context) → LoggedIn (again later ctx))
        → LoggedIn (on_status failed_text (turns k) again now r)
    unfolding on_status
    on_status-LoggedIn k before again now panic e h = tt
    on_status-LoggedIn k before again now (done (err x, ctx)) e h = tt
    on_status-LoggedIn k before again now (done (ok waiting_for_scan, ctx)) e h =
        within_lem failed_text LoggedIn tt now (some 2000) (λ now. again now ctx)
          λ later _ _ _ _. h later ctx
    on_status-LoggedIn k before again now (done (ok waiting_for_confirm, ctx)) e h =
        within_lem failed_text LoggedIn tt now (some 2000) (λ now. again now ctx)
          λ later _ _ _ _. h later ctx
    on_status-LoggedIn k before again now (done (ok (confirmed d), after)) e h =
        let last = (turns k).login_stores (store_confirmed d after) in
        within_lem failed_text LoggedIn tt now (turns k).login_took
          (λ now. finished now (do_wt_login failed_text (turns k).login) last)
          λ later _ _ _ _.
            finished-LoggedIn later (do_wt_login failed_text (turns k).login) last λ logged.
              let event = do_wt_login_ok (turns k).login logged in
              (
                k,
                before,
                after,
                d,
                event.0,
                store_confirmed d after,
                e,
                event.1,
                event.2,
                store_confirmed-KeysStored d after,
                refl,
              )
    on_status-LoggedIn k before again now (done (ok code_expired, ctx)) e h = tt
    on_status-LoggedIn k before again now (done (ok canceled, ctx)) e h = tt

    scan-LoggedIn :
        (fuel k now : ℕ) (ctx : Context) → LoggedIn (scan failed_text turns fuel k now ctx)
    unfolding scan
    scan-LoggedIn zero k now ctx = tt
    scan-LoggedIn (suc fuel) k now ctx =
        within_lem failed_text LoggedIn tt now (turns k).took
          (λ now.
            on_status failed_text (turns k) (scan failed_text turns fuel (k + 1)) now
              (query_trans_tmp_status (turns k) ctx))
          λ later _ _ _ _.
            on_status-LoggedIn k ctx (scan failed_text turns fuel (k + 1)) later
              (query_trans_tmp_status (turns k) ctx) refl
              (λ later' ctx'. scan-LoggedIn fuel (k + 1) later' ctx')

    -- A login by QR code succeeds only where the query of some turn said that the code is confirmed
    -- and the login request of that turn was answered with code 0; the final context is then what the
    -- answer of the login makes of one that has the key, the temporary password and the signature of
    -- that confirmation, and is otherwise the context after the query.
    pub login_by_qrcode-Confirmed :
        (ctx ctx' : Context) (time : ℕ)
        → login_by_qrcode failed_text turns ctx ≡ finished time (ok tt) ctx'
        → (k : ℕ) × (before : Context) × (after : Context) × (d : TransEmp12ConfirmedData)
          × (event : WtLogin) × (stored : Context) × (query_trans_tmp_status (turns k) before
              ≡ done (ok (confirmed d), after))
          × ((turns k).login ≡ answered event)
          × (event.code ≡ 0)
          × KeysStored d after stored
          × (ctx' ≡ (turns k).login_stores stored)
    unfolding login_by_qrcode
    login_by_qrcode-Confirmed ctx ctx' time e = subst LoggedIn e (scan-LoggedIn 61 0 0 ctx)
