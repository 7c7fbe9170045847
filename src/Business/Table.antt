-- ===== src/Business/Table.antt =====
-- mania/src/core/business.rs: what each access to the table of pending requests keeps.
use mania.Base.{
  ℕ, List, [], ◌∷◌, some, none, Bool, true, false, ◌==◌, ==_iff, ne→==, Bool-cases, ◌≡◌, ◌≢◌, ◌∙◌,
  sym, ap, ap₂, refl, subst, ◌⊎◌, inl, inr,
}
use mania.Base.Map.{
  get, put, remove, number_key, get-put, put_away, remove_away, put_cases, remove_cases,
}
use mania.Business.Pending.{
  Status, waiting, answered, dropped, closed, use_sender, set_status, Channel, Handle, unclaimed,
  new_handle, register, abandon, drop_receiver, send_result, claim, complete,
}

-- One of the values of a list.
abbrev pub Among : {A : Type 0} → A → List A → Type 0
Among a [] = ⊥
Among a (b ∷ bs) = (a ≡ b) ⊎ Among a bs

pub some_injective : {A : Type 0} {a b : A} → some a ≡ some b → a ≡ b
some_injective e = cc (e)

module _ {R : Type 0} where
  -- The sender has not been used.
  abbrev pub has_sender : Status R → Bool
  has_sender waiting = true
  has_sender (answered r) = false
  has_sender dropped = true
  has_sender closed = false

  pub record Consistent (h : Handle R) : Type 0 where
    -- an entry leads to a channel for its sequence, whose sender is there
    pub held :
        (q id : ℕ)
        → get h.pending_requests q ≡ some id
        → (c : Channel R) × (get h.channels id ≡ some c)
          × (c.sequence ≡ q)
          × (has_sender c.status ≡ true)
    -- as long as the sender is there, so is the entry
    pub kept :
        (id : ℕ) (c : Channel R)
        → get h.channels id ≡ some c
        → has_sender c.status ≡ true
        → get h.pending_requests c.sequence ≡ some id
    -- what was answered has arrived
    pub came :
        (id : ℕ) (c : Channel R) (r : R)
        → get h.channels id ≡ some c
        → c.status ≡ answered r
        → Among (c.sequence, r) h.arrived

  pub new_handle-Consistent : Consistent new_handle
  unfolding new_handle get
  new_handle-Consistent = record {
    held = λ q id e. cc (e);
    kept = λ id c e o. cc (e);
    came = λ id c r e a. cc (e);
  }

  apart :
      (channels : List (ℕ × Channel R)) (i j : ℕ) (c : Channel R)
      → get channels i ≡ none
      → get channels j ≡ some c
      → (i == j) ≡ false
  apart channels i j c missing found =
      ne→== i j λ same.
        let both : none ≡ some c = sym missing ∙ (ap (get channels) same ∙ found) in cc (both)

  pub register-Consistent :
      (h : Handle R) (q0 id0 : ℕ)
      → get h.channels id0 ≡ none
      → ((other : ℕ) (c : Channel R) → get h.channels other ≡ some c → c.sequence ≢ q0)
      → Consistent h
      → Consistent (register q0 id0 h)
  unfolding register
  register-Consistent h q0 id0 missing fresh inv =
      let new : Channel R = record { sequence = q0; status = waiting } in
      record {
        held = λ q id e. elim (put_cases q0 id0 h.pending_requests q id e) [
          | inl (same_q, same_id) ↦ (
            new,
            subst (λ i. get (put id0 new h.channels) i ≡ some new) same_id
                (get-put id0 new h.channels),
            same_q,
            refl,
          )
          | inr (away, found) ↦
              let c = inv.held q id found in
              (
                c.0,
                put_away id0 new h.channels id (apart h.channels id0 id c.0 missing c.1) ∙ c.1,
                c.2,
                c.3,
              )
        ];
        kept = λ id c e o. elim (put_cases id0 new h.channels id c e) [
          | inl (same_id, same_c) ↦
              subst (λ (c : Channel R). get (put q0 id0 h.pending_requests) c.sequence ≡ some id)
                same_c (get-put q0 id0 h.pending_requests ∙ ap some same_id)
          | inr (away, found) ↦
              put_away q0 id0 h.pending_requests c.sequence
                (ne→== q0 c.sequence λ same. fresh id c found (sym same))
              ∙ inv.kept id c found o
        ];
        came = λ id c r e a. elim (put_cases id0 new h.channels id c e) [
          | inl (same_id, same_c) ↦
              let used : waiting ≡ answered r = ap (λ (c : Channel R). c.status) same_c ∙ a in
              cc (used)
          | inr (away, found) ↦ inv.came id c r found a
        ];
      }

  has_sender-drop : (s : Status R) → has_sender (drop_receiver s) ≡ has_sender s
  has_sender-drop waiting = refl
  has_sender-drop (answered r) = refl
  has_sender-drop dropped = refl
  has_sender-drop closed = refl

  answered-drop : (s : Status R) (r : R) → drop_receiver s ≡ answered r → s ≡ answered r
  answered-drop waiting r e = cc (e)
  answered-drop (answered r') r e = e
  answered-drop dropped r e = cc (e)
  answered-drop closed r e = cc (e)

  pub abandon-Consistent :
      (h : Handle R) (id0 : ℕ) (c0 : Channel R)
      → get h.channels id0 ≡ some c0
      → Consistent h
      → Consistent (abandon id0 c0 h)
  unfolding abandon
  abandon-Consistent h id0 c0 present inv =
      let new : Channel R = record c0 { status = drop_receiver c0.status } in
      record {
        held = λ q id e.
            let c = inv.held q id e in
            elim (Bool-cases (id0 == id)) [
              | inl here ↦
                  let same_id = (==_iff id0 id).0 here in
                  let same_c : c0 ≡ c.0 =
                    some_injective (sym present ∙ (ap (get h.channels) same_id ∙ c.1)) in
                  (
                    new,
                    subst (λ i. get (put id0 new h.channels) i ≡ some new) same_id
                        (get-put id0 new h.channels),
                    ap (λ (c : Channel R). c.sequence) same_c ∙ c.2,
                    has_sender-drop c0.status
                        ∙ (ap (λ (c : Channel R). has_sender c.status) same_c ∙ c.3),
                  )
              | inr away ↦ (c.0, put_away id0 new h.channels id away ∙ c.1, c.2, c.3)
            ];
        kept = λ id c e o. elim (put_cases id0 new h.channels id c e) [
          | inl (same_id, same_c) ↦
              subst (λ (c : Channel R). get h.pending_requests c.sequence ≡ some id) same_c
                (inv.kept id0 c0 present (
                    sym (has_sender-drop c0.status)
                    ∙ (ap (λ (c : Channel R). has_sender c.status) same_c ∙ o))
                  ∙ ap some same_id)
          | inr (away, found) ↦ inv.kept id c found o
        ];
        came = λ id c r e a. elim (put_cases id0 new h.channels id c e) [
          | inl (same_id, same_c) ↦
              subst (λ (c : Channel R). Among (c.sequence, r) h.arrived) same_c
                (inv.came id0 c0 r present
                  (answered-drop c0.status r (ap (λ (c : Channel R). c.status) same_c ∙ a)))
          | inr (away, found) ↦ inv.came id c r found a
        ];
      }

  -- The entry goes, and the sender with it.
  pub finished-Consistent :
      (h : Handle R) (q id : ℕ) (c : Channel R) (status : Status R) (r : R)
      → get h.pending_requests q ≡ some id
      → get h.channels id ≡ some c
      → c.sequence ≡ q
      → has_sender status ≡ false
      → ((r' : R) → status ≡ answered r' → r' ≡ r)
      → Consistent h
      → Consistent (
          set_status id c status (record h {
            pending_requests = remove q h.pending_requests;
            arrived = (q, r) ∷ h.arrived;
          }))
  finished-Consistent h q id c status r entry channel for_q used is_r inv =
      let new : Channel R = record c { status = status } in
      record {
        held = λ q' id' e.
            let old = remove_cases q h.pending_requests q' id' e in
            let c' = inv.held q' id' old.1 in
            (
              c'.0,
              put_away id new h.channels id' (
                    ne→== id id' λ same.
                      let both : c ≡ c'.0 =
                        some_injective (sym channel ∙ (ap (get h.channels) same ∙ c'.1)) in
                      let same_q : q ≡ q' =
                        sym for_q ∙ (ap (λ (c : Channel R). c.sequence) both ∙ c'.2) in
                      let clash : true ≡ false = sym ((==_iff q q').1 same_q) ∙ old.0 in cc (clash))
                  ∙ c'.1,
              c'.2,
              c'.3,
            );
        kept = λ id' c' e o. elim (put_cases id new h.channels id' c' e) [
          | inl (same_id, same_c) ↦
              let clash : false ≡ true =
                sym used ∙ (ap (λ (c : Channel R). has_sender c.status) same_c ∙ o) in
              cc (clash)
          | inr (away, found) ↦
              let before = inv.kept id' c' found o in
              remove_away q h.pending_requests c'.sequence (
                ne→== q c'.sequence λ same.
                  let both : id ≡ id' =
                    some_injective (sym entry ∙ (ap (get h.pending_requests) same ∙ before)) in
                  let clash : true ≡ false = sym ((==_iff id id').1 both) ∙ away in cc (clash))
              ∙ before
        ];
        came = λ id' c' r' e a. elim (put_cases id new h.channels id' c' e) [
          | inl (same_id, same_c) ↦
              let its : r' ≡ r = is_r r' (ap (λ (c : Channel R). c.status) same_c ∙ a) in
              inl (
                ap₂ (λ (x : ℕ) (y : R). (x, y))
                  (sym (ap (λ (c : Channel R). c.sequence) same_c) ∙ for_q) its)
          | inr (away, found) ↦ inr (inv.came id' c' r' found a)
        ];
      }

  -- What becomes of an arrival, in the four cases.
  pub complete_unclaimed :
      (h : Handle R) (q : ℕ) (r : R)
      → get h.pending_requests q ≡ none
      → complete q r h ≡ (record h { arrived = (q, r) ∷ h.arrived }, unclaimed)
  unfolding complete claim
  complete_unclaimed h q r e = rw (e, claim) refl

  module _ (h : Handle R) (q id : ℕ) (c : Channel R) (r : R)
      (entry : get h.pending_requests q ≡ some id) (channel : get h.channels id ≡ some c) where
    abbrev pub taken : Handle R
    taken = record h {
      pending_requests = remove q h.pending_requests;
      arrived = (q, r) ∷ h.arrived;
    }

    pub complete_claimed : complete q r h ≡ use_sender id c r c.status taken
    unfolding complete claim send_result
    complete_claimed = rw (entry, channel) refl
