-- ===== src/Business/Tests.antt =====
-- Tests of the table of pending requests, and the witnesses of its theorems.
use mania.Base.{ℕ, List, [], ◌∷◌, Option, some, none, false, ◌==◌, ◌≡◌, refl}
use mania.Base.Map.{get, put, remove, number_key}
use mania.Business.Pending.{
  waiting, answered, dropped, Channel, Handle, delivered, panicked, new_handle, register, abandon,
  complete, claim, send_result, use_sender, registers, gives_up, completes, Reaches, start,
  then_step,
}
use mania.Business.Reach.{complete-Delivers, complete-Panics, Reaches-Answered}
use mania.Business.Table.{Among}
use mania.Business.Refines.{Change, arrives, view, Step-Change}
use mania.Base.Fault.{done, Result, err}
use mania.Base.Text.{codes}
use mania.Base.Int.{to_unsigned, ◌-ℤ◌}
use mania.Business.Dispatch.{Handler, Parsed, dispatch_sso_packet, dispatch_sso_packet-Unsupported}
use mania.Context.{Context}
use mania.Context.Example.{fresh}
use mania.Errors.{BusinessError, internal_event_error}
use mania.Event.{Outcome, unsupported_event}
use mania.Packet.Reader.{section, section_with_addition, bytes, u32, get_uint, split_to}
use mania.Sso.{SsoPacket, t12}

abbrev waits : Channel ℕ
waits = record { sequence = 5; status = waiting }

abbrev gone : Channel ℕ
gone = record { sequence = 5; status = dropped }

abbrev has_answer : Channel ℕ
has_answer = record { sequence = 5; status = answered 7 }

abbrev asked : Handle ℕ
asked = register 5 0 new_handle

asked-Reaches : Reaches asked
unfolding new_handle get
asked-Reaches = then_step start (registers new_handle 5 0 refl (λ other c e. cc (e)))

found_waiting : get asked.channels 0 ≡ some waits
unfolding register new_handle put get
found_waiting = refl

abbrev cancelled : Handle ℕ
cancelled = abandon 0 waits asked

found_gone : get cancelled.channels 0 ≡ some gone
unfolding register new_handle put get abandon
found_gone = refl

abbrev completed : Handle ℕ
completed = (complete 5 7 asked).0

found_answer : get completed.channels 0 ≡ some has_answer
unfolding register new_handle put complete claim get send_result use_sender remove
found_answer = refl

complete-Delivers_example :
    ((complete 5 7 asked).1 ≡ delivered)
    × (get (complete 5 7 asked).0.channels 0 ≡ some has_answer)
    × ((other : ℕ)
        → (0 == other) ≡ false
        → get (complete 5 7 asked).0.channels other ≡ get asked.channels other)
    × (get (complete 5 7 asked).0.pending_requests 5 ≡ none)
complete-Delivers_example = complete-Delivers asked 0 waits 7 asked-Reaches found_waiting refl

complete-Panics_example :
    (get cancelled.pending_requests 5 ≡ some 0) × ((complete 5 7 cancelled).1 ≡ panicked)
complete-Panics_example =
    complete-Panics cancelled 0 gone 7
      (then_step asked-Reaches (gives_up asked 0 waits found_waiting)) found_gone refl

Reaches-Answered_example : Among (5, 7) completed.arrived
Reaches-Answered_example =
    Reaches-Answered completed 0 has_answer 7 (then_step asked-Reaches (completes asked 5 7))
      found_answer refl

-- A packet of an unknown command, with an empty payload, while request 0 waits.
abbrev parsers : List ℕ → Option (List ℕ → Context → Outcome (Parsed (Unit {0})))
parsers command = none

abbrev handlers : Unit {0} → List (Handler (Unit {0}) (Unit {0}))
handlers event = []

abbrev unknown_packet : SsoPacket
unknown_packet = record {
  packet_type = t12;
  command = codes "no.such";
  sequence = 5;
  payload = 0 ∷ 0 ∷ 0 ∷ 4 ∷ [];
}

abbrev Answer : Type 0
Answer = Result BusinessError (Parsed (Unit {0}))

abbrev unanswered : Channel Answer
unanswered = record { sequence = 5; status = waiting }

abbrev waiting_table : Handle Answer
waiting_table = register 5 0 new_handle

waiting_table-Reaches : Reaches waiting_table
unfolding new_handle get
waiting_table-Reaches = then_step start (registers new_handle 5 0 refl (λ other c e. cc (e)))

found_unanswered : get waiting_table.channels 0 ≡ some unanswered
unfolding register new_handle put get
found_unanswered = refl

empty_payload : section bytes (0 ∷ 0 ∷ 0 ∷ 4 ∷ []) ≡ done ([], [])
unfolding section section_with_addition bytes u32 get_uint split_to to_unsigned ◌-ℤ◌
empty_payload = refl

dispatch_sso_packet-Unsupported_example :
    (table' : Handle Answer) × (dispatch_sso_packet parsers handlers unknown_packet fresh tt
        waiting_table
      ≡ done (tt, table', delivered))
    × (get table'.channels 0
        ≡ some (record unanswered {
          status = answered (err (internal_event_error (unsupported_event (codes "no.such"))));
        }))
dispatch_sso_packet-Unsupported_example =
    dispatch_sso_packet-Unsupported parsers handlers unknown_packet fresh tt waiting_table [] [] 0
      unanswered empty_payload refl waiting_table-Reaches found_unanswered refl refl

Step-Change_example : Change (arrives 5 7) (view asked) (view completed)
Step-Change_example = Step-Change asked-Reaches (completes asked 5 7)
