-- ===== src/Business/Refines.antt =====
-- mania/src/core/business.rs: seen from outside, the table of pending requests is what a request knows
-- of itself: who asked with which sequence, and what has become of it.
use mania.Base.{
  ℕ, ◌==◌, Option, some, none, true, false, if◌then◌else◌, Option-cases, Bool-cases, ◌≡◌, ◌∙◌, sym,
  ap, refl, inl, inr,
}
use mania.Base.Map.{get, number_key, get-put_at}
use mania.Business.Pending.{
  Status, waiting, answered, dropped, closed, Channel, Handle, register, abandon, drop_receiver,
  use_sender, complete, Step, registers, gives_up, completes, Reaches,
}
use mania.Business.Reach.{Reaches-Consistent}
use mania.Business.Table.{has_sender, Consistent, complete_unclaimed, complete_claimed}

-- The requests by their channels, without the table.
abbrev pub View : Type 0 → Type 0
View R = ℕ → Option (Channel R)

-- What is seen of a step: a request, a caller that returns, a result for a sequence.
pub data Action (R : Type 0) : Type 0 where
  asks : ℕ → Action R
  leaves : ℕ → Action R
  arrives : ℕ → R → Action R

module _ {R : Type 0} where
  abbrev pub view : Handle R → View R
  view h id = get h.channels id

  abbrev pub updated : ℕ → Channel R → View R → View R
  updated id c v j = if id == j then some c else v j

  abbrev pub action : {h h' : Handle R} → Step h h' → Action R
  action (registers h q id missing fresh) = asks q
  action (gives_up h id c present) = leaves id
  action (completes h q r) = arrives q r

  -- What an action may do to the requests.
  pub data Change (a : Action R) (v v' : View R) : Type 0 where
    asked :
        (id q : ℕ)
        → a ≡ asks q
        → v id ≡ none
        → ((j : ℕ) → v' j ≡ updated id (record { sequence = q; status = waiting }) v j)
        → Change a v v'
    withdrawn :
        (id : ℕ) (c : Channel R)
        → a ≡ leaves id
        → v id ≡ some c
        → ((j : ℕ) → v' j ≡ updated id (record c { status = drop_receiver c.status }) v j)
        → Change a v v'
    got_answer :
        (id : ℕ) (c : Channel R) (r : R)
        → a ≡ arrives c.sequence r
        → v id ≡ some c
        → c.status ≡ waiting
        → ((j : ℕ) → v' j ≡ updated id (record c { status = answered r }) v j)
        → Change a v v'
    lost_answer :
        (id : ℕ) (c : Channel R) (r : R)
        → a ≡ arrives c.sequence r
        → v id ≡ some c
        → c.status ≡ dropped
        → ((j : ℕ) → v' j ≡ updated id (record c { status = closed }) v j)
        → Change a v v'
    nothing_waits :
        (q : ℕ) (r : R)
        → a ≡ arrives q r
        → ((id : ℕ) (c : Channel R) → v id ≡ some c → c.sequence ≡ q → has_sender c.status ≡ false)
        → ((j : ℕ) → v' j ≡ v j)
        → Change a v v'

  no_entry :
      (h : Handle R) (q : ℕ)
      → Consistent h
      → get h.pending_requests q ≡ none
      → (id : ℕ) (c : Channel R) → get h.channels id ≡ some c
      → c.sequence ≡ q
      → has_sender c.status ≡ false
  no_entry h q inv missing id c found same = elim (Bool-cases (has_sender c.status)) [
    | inl there ↦
        let entry : none ≡ some id =
          sym missing ∙ (sym (ap (get h.pending_requests) same) ∙ inv.kept id c found there) in
        cc (entry)
    | inr used ↦ used
  ]

  claimed-Change :
      (h h1 : Handle R) (id q : ℕ) (c : Channel R) (r : R) (s : Status R)
      → c.sequence ≡ q
      → h1.channels ≡ h.channels
      → get h.channels id ≡ some c
      → c.status ≡ s
      → has_sender s ≡ true
      → Change (arrives q r) (view h) (view (use_sender id c r s h1).0)
  unfolding use_sender
  claimed-Change h h1 id q c r waiting for_q e found same o =
      got_answer id c r (ap (λ q. arrives q r) (sym for_q)) found same λ j.
        get-put_at id (record c { status = answered r }) h1.channels j
        ∙ ap (λ m. if id == j then some (record c { status = answered r }) else get m j) e
  claimed-Change h h1 id q c r (answered r') for_q e found same o = cc (o)
  claimed-Change h h1 id q c r dropped for_q e found same o =
      lost_answer id c r (ap (λ q. arrives q r) (sym for_q)) found same λ j.
        get-put_at id (record c { status = closed }) h1.channels j
        ∙ ap (λ m. if id == j then some (record c { status = closed }) else get m j) e
  claimed-Change h h1 id q c r closed for_q e found same o = cc (o)

  complete-Change :
      (h : Handle R) (q : ℕ) (r : R)
      → Consistent h
      → Change (arrives q r) (view h) (view (complete q r h).0)
  complete-Change h q r inv = elim (Option-cases (get h.pending_requests q)) [
    | inl missing ↦
        rw (complete_unclaimed h q r missing)
          (nothing_waits q r refl (no_entry h q inv missing) (λ j. refl))
    | inr (id, entry) ↦
        let c = inv.held q id entry in
        rw (complete_claimed h q id c.0 r entry c.1)
          (claimed-Change h _ id q c.0 r c.0.status c.2 refl c.1 refl c.3)
  ]

  -- From every table that the tasks can reach, each step changes the requests as the specification
  -- says: a new one waits, one is withdrawn, the one that waits for the sequence is answered, a late
  -- answer of a withdrawn one is lost, or a result for which no sender is left changes none.
  pub Step-Change :
      {h h' : Handle R} → Reaches h → (step : Step h h') → Change (action step) (view h) (view h')
  unfolding register abandon
  Step-Change reached (registers h q id missing fresh) =
      asked id q refl missing
        λ j. get-put_at id (record { sequence = q; status = waiting }) h.channels j
  Step-Change reached (gives_up h id c present) =
      withdrawn id c refl present
        λ j. get-put_at id (record c { status = drop_receiver c.status }) h.channels j
  Step-Change reached (completes h q r) = complete-Change h q r (Reaches-Consistent reached)
