-- ===== src/Business/Reach.antt =====
-- mania/src/core/business.rs: what holds of the table of pending requests however its tasks interleave.
use mania.Base.{
  ℕ, ◌∷◌, some, none, true, false, ◌==◌, ==_refl, Option-cases, ◌≡◌, ◌∙◌, ap, refl, inl, inr,
}
use mania.Base.Map.{get, remove, number_key, get-put, put_away, get-remove_at}
use mania.Business.Pending.{
  Status, waiting, answered, dropped, closed, use_sender, Channel, Handle, delivered, panicked,
  complete, Step, registers, gives_up, completes, Reaches, start, then_step,
}
use mania.Business.Table.{
  Among, has_sender, Consistent, new_handle-Consistent, register-Consistent, abandon-Consistent,
  finished-Consistent, complete_unclaimed, complete_claimed,
}

module _ {R : Type 0} where
  used-Consistent :
      (h : Handle R) (q id : ℕ) (c : Channel R) (r : R) (s : Status R)
      → get h.pending_requests q ≡ some id
      → get h.channels id ≡ some c
      → c.sequence ≡ q
      → has_sender s ≡ true
      → Consistent h
      → Consistent
          (use_sender id c r s (record h {
            pending_requests = remove q h.pending_requests;
            arrived = (q, r) ∷ h.arrived;
          })).0
  unfolding use_sender
  used-Consistent h q id c r waiting entry channel for_q o inv =
      finished-Consistent h q id c (answered r) r entry channel for_q refl (λ r' e. cc (e)) inv
  used-Consistent h q id c r (answered r') entry channel for_q o inv = cc (o)
  used-Consistent h q id c r dropped entry channel for_q o inv =
      finished-Consistent h q id c closed r entry channel for_q refl (λ r' e. cc (e)) inv
  used-Consistent h q id c r closed entry channel for_q o inv = cc (o)

  arrived-Consistent :
      (h : Handle R) (q : ℕ) (r : R)
      → Consistent h
      → Consistent (record h { arrived = (q, r) ∷ h.arrived })
  arrived-Consistent h q r inv = record {
    held = inv.held;
    kept = inv.kept;
    came = λ id c r' e a. inr (inv.came id c r' e a);
  }

  complete-Consistent :
      (h : Handle R) (q : ℕ) (r : R) → Consistent h → Consistent (complete q r h).0
  complete-Consistent h q r inv = elim (Option-cases (get h.pending_requests q)) [
    | inl missing ↦ rw (complete_unclaimed h q r missing) (arrived-Consistent h q r inv)
    | inr (id, entry) ↦
        let c = inv.held q id entry in
        rw (complete_claimed h q id c.0 r entry c.1)
          (used-Consistent h q id c.0 r c.0.status entry c.1 c.2 c.3 inv)
  ]

  step-Consistent : {h h' : Handle R} → Step h h' → Consistent h → Consistent h'
  step-Consistent (registers h q id missing fresh) inv =
      register-Consistent h q id missing fresh inv
  step-Consistent (gives_up h id c present) inv = abandon-Consistent h id c present inv
  step-Consistent (completes h q r) inv = complete-Consistent h q r inv

  pub Reaches-Consistent : {h : Handle R} → Reaches h → Consistent h
  Reaches-Consistent start = new_handle-Consistent
  Reaches-Consistent (then_step before step) = step-Consistent step (Reaches-Consistent before)

  -- However the tasks have interleaved: a result that a request was answered with has arrived with the
  -- request's own sequence.
  pub Reaches-Answered :
      (h : Handle R) (id : ℕ) (c : Channel R) (r : R)
      → Reaches h
      → get h.channels id ≡ some c
      → c.status ≡ answered r
      → Among (c.sequence, r) h.arrived
  Reaches-Answered h id c r reached found e = (Reaches-Consistent reached).came id c r found e

  -- However the tasks have interleaved: a request that waits is answered by the next result that
  -- arrives with its sequence; no other request changes, and the entry of the sequence is gone.
  pub complete-Delivers :
      (h : Handle R) (id : ℕ) (c : Channel R) (r : R)
      → Reaches h
      → get h.channels id ≡ some c
      → c.status ≡ waiting
      → ((complete c.sequence r h).1 ≡ delivered)
        × (get (complete c.sequence r h).0.channels id ≡ some (record c { status = answered r }))
        × ((other : ℕ)
            → (id == other) ≡ false
            → get (complete c.sequence r h).0.channels other ≡ get h.channels other)
        × (get (complete c.sequence r h).0.pending_requests c.sequence ≡ none)
  unfolding use_sender
  complete-Delivers h id c r reached found e =
      let entry = (Reaches-Consistent reached).kept id c found (ap has_sender e) in
      rw (complete_claimed h c.sequence id c r entry found, e)
        (
          refl,
          get-put id (record c { status = answered r }) h.channels,
          λ other away. put_away id (record c { status = answered r }) h.channels other away,
          get-remove_at c.sequence h.pending_requests c.sequence ∙ rw (==_refl c.sequence) refl,
        )

  -- However the tasks have interleaved: the entry of a request whose caller has returned early or was
  -- cancelled is still there, and the next result that arrives with its sequence panics.
  pub complete-Panics :
      (h : Handle R) (id : ℕ) (c : Channel R) (r : R)
      → Reaches h
      → get h.channels id ≡ some c
      → c.status ≡ dropped
      → (get h.pending_requests c.sequence ≡ some id) × ((complete c.sequence r h).1 ≡ panicked)
  unfolding use_sender
  complete-Panics h id c r reached found e =
      let entry = (Reaches-Consistent reached).kept id c found (ap has_sender e) in
      (entry, rw (complete_claimed h c.sequence id c r entry found, e) refl)
