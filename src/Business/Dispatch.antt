-- ===== src/Business/Dispatch.antt =====
-- mania/src/core/business.rs and event.rs: a received packet becomes events, the handlers of each event
-- run, and the request that waits gets the result. The two tables that the build collects, of the
-- parsers by command and of the handlers by type of event, are parameters; `H` is what handlers change.
use mania.Base.{ℕ, List, [], ◌∷◌, Option, some, none, ◌≡◌, ap, sym}
use mania.Base.Fault.{Fault, done, panic, Result, ok, err}
use mania.Base.Fault
use mania.Base.Map.{get, number_key}
use mania.Business.Pending.{
  Handle, Delivery, delivered, complete, Channel, waiting, answered, Reaches,
}
use mania.Business.Reach.{complete-Delivers}
use mania.Context.{Context}
use mania.Errors.{BusinessError, internal_event_error}
use mania.Event.{EventError, Outcome, unsupported_event}
use mania.Packet.Reader.{section, bytes}
use mania.Sso.{SsoPacket}

pub data LogicFlow : Type 0 where
  in_coming : LogicFlow
  out_going : LogicFlow

-- The result, the event as it was changed, and what else was changed.
abbrev pub Handled : Type 0 → Type 0 → Type 0
Handled E H = Fault (Result BusinessError (Unit {0}) × E × H)

abbrev pub Handler : Type 0 → Type 0 → Type 0
Handler E H = E → LogicFlow → H → Handled E H

abbrev pub Parsed : Type 0 → Type 0
Parsed E = E × Option (List E)

module _ {E H : Type 0} where
  -- `.await?`
  abbrev pub next_handler :
      (E → H → Handled E H) → Result BusinessError (Unit {0}) × E × H → Handled E H
  next_handler rest (ok _, event, h) = rest event h
  next_handler rest (err e, event, h) = done (err e, event, h)

  unfoldable pub run_handlers : List (Handler E H) → E → LogicFlow → H → Handled E H
  run_handlers [] event flow h = done (ok tt, event, h)
  run_handlers (f ∷ fns) event flow h =
      Fault.◌>>=◌ (f event flow h) (next_handler λ event h. run_handlers fns event flow h)

module _ {E H : Type 0} (event_map : List ℕ → Option (List ℕ → Context → Outcome (Parsed E)))
    (logic_map : E → List (Handler E H)) where
  unfoldable pub dispatch_logic : E → LogicFlow → H → Handled E H
  unfolding run_handlers
  dispatch_logic event flow h = run_handlers (logic_map event) event flow h

  abbrev pub parse_with :
      List ℕ
      → Option (List ℕ → Context → Outcome (Parsed E))
      → List ℕ
      → Context
      → Outcome (Parsed E)
  parse_with command none payload ctx = done (err (unsupported_event command))
  parse_with command (some parse) payload ctx = parse payload ctx

  unfoldable pub resolve_event : SsoPacket → Context → Outcome (Parsed E)
  unfolding section bytes
  resolve_event packet ctx =
      Fault.◌>>=◌ (section bytes packet.payload)
        λ (payload, rest). parse_with packet.command (event_map packet.command) payload ctx

  abbrev pub Dispatched : Type 0 → Type 0
  Dispatched A = Fault (Result BusinessError A × H)

  abbrev pub keep_event :
      {A : Type 0} → (E → H → Dispatched A) → Result BusinessError (Unit {0}) × E × H → Dispatched A
  keep_event rest (ok _, event, h) = rest event h
  keep_event rest (err e, event, h) = done (err e, h)

  abbrev pub cons_event : E → Result BusinessError (List E) × H → Dispatched (List E)
  cons_event event (ok events, h) = done (ok (event ∷ events), h)
  cons_event event (err e, h) = done (err e, h)

  -- The extra events, in order.
  unfoldable pub dispatch_extra : List E → H → Dispatched (List E)
  unfolding dispatch_logic
  dispatch_extra [] h = done (ok [], h)
  dispatch_extra (event ∷ events) h =
      Fault.◌>>=◌ (dispatch_logic event in_coming h)
        (keep_event λ event h. Fault.◌>>=◌ (dispatch_extra events h) (cons_event event))

  abbrev pub with_major : E → Result BusinessError (List E) × H → Dispatched (Parsed E)
  with_major major (ok events, h) = done (ok (major, some events), h)
  with_major major (err e, h) = done (err e, h)

  unfoldable pub dispatch_extras : E → Option (List E) → H → Dispatched (Parsed E)
  unfolding dispatch_extra
  dispatch_extras major none h = done (ok (major, none), h)
  dispatch_extras major (some events) h = Fault.◌>>=◌ (dispatch_extra events h) (with_major major)

  unfoldable pub dispatch_events : Result EventError (Parsed E) → H → Dispatched (Parsed E)
  unfolding dispatch_logic dispatch_extras
  dispatch_events (err e) h = done (err (internal_event_error e), h)
  dispatch_events (ok (major, extra)) h =
      Fault.◌>>=◌ (dispatch_logic major in_coming h)
        (keep_event λ major h. dispatch_extras major extra h)

  -- The result of a packet, then its delivery.
  unfoldable pub dispatch_sso_packet :
      SsoPacket
      → Context
      → H
      → Handle (Result BusinessError (Parsed E))
      → Fault (H × Handle (Result BusinessError (Parsed E)) × Delivery)
  unfolding resolve_event dispatch_events complete
  dispatch_sso_packet packet ctx h table = Fault.◌>>=◌ (resolve_event packet ctx) λ resolved.
      Fault.◌>>=◌ (dispatch_events resolved h) λ (result, h).
        let (table', delivery) = complete packet.sequence result table in done (h, table', delivery)

  -- A packet whose command no parser is registered for runs no handler, and the request that waits
  -- for its sequence is answered with the error that names the command.
  pub dispatch_sso_packet-Unsupported :
      (packet : SsoPacket) (ctx : Context) (h : H)
      (table : Handle (Result BusinessError (Parsed E))) (payload rest : List ℕ) (id : ℕ)
      (c : Channel (Result BusinessError (Parsed E)))
      → section bytes packet.payload ≡ done (payload, rest)
      → event_map packet.command ≡ none
      → Reaches table
      → get table.channels id ≡ some c
      → c.sequence ≡ packet.sequence
      → c.status ≡ waiting
      → (table' : Handle (Result BusinessError (Parsed E))) × (dispatch_sso_packet packet ctx h
            table
          ≡ done (h, table', delivered))
        × (get table'.channels id
            ≡ some (record c {
              status = answered (err (internal_event_error (unsupported_event packet.command)));
            }))
  unfolding dispatch_sso_packet resolve_event dispatch_events
  dispatch_sso_packet-Unsupported packet ctx h table payload rest id c read unknown reached found
        for_it waits =
      let error = err (internal_event_error (unsupported_event packet.command)) in
      let outcome = complete-Delivers table id c error reached found waits in
      (
        (complete c.sequence error table).0,
        rw (read, unknown, sym for_it)
            (ap (λ d. done (h, (complete c.sequence error table).0, d)) outcome.0),
        outcome.1,
      )
