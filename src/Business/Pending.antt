-- ===== src/Business/Pending.antt =====
-- mania/src/core/business.rs: the table of pending requests, and the channel of each request. A channel
-- is known by a number; it holds what has become of its two ends.
use mania.Base.{ℕ, List, [], ◌∷◌, Option, some, none, ◌≡◌, ◌≢◌}
use mania.Base.Map.{get, put, remove, number_key}

-- `waiting`: both ends are held. `answered`: the sender was used. `dropped`: the caller has returned
-- early or was cancelled, so that the receiver is gone. `closed`: the sender was used after that.
pub data Status (R : Type 0) : Type 0 where
  waiting : Status R
  answered : R → Status R
  dropped : Status R
  closed : Status R

pub record Channel (R : Type 0) : Type 0 where
  pub sequence : ℕ
  pub status : Status R

-- `arrived` lists the results that were dispatched, with their sequences, the last one first.
pub record Handle (R : Type 0) : Type 0 where
  pub pending_requests : List (ℕ × ℕ)
  pub channels : List (ℕ × Channel R)
  pub arrived : List (ℕ × R)

pub data Delivery : Type 0 where
  delivered : Delivery
  unclaimed : Delivery
  panicked : Delivery

module _ {R : Type 0} where
  unfoldable pub new_handle : Handle R
  new_handle = record { pending_requests = []; channels = []; arrived = [] }

  -- send_packet, up to `post_packet`.
  unfoldable pub register : ℕ → ℕ → Handle R → Handle R
  unfolding put
  register sequence channel h = record h {
    pending_requests = put sequence channel h.pending_requests;
    channels = put channel (record { sequence = sequence; status = waiting }) h.channels;
  }

  abbrev pub drop_receiver : Status R → Status R
  drop_receiver waiting = dropped
  drop_receiver (answered r) = answered r
  drop_receiver dropped = dropped
  drop_receiver closed = closed

  abbrev pub set_status : ℕ → Channel R → Status R → Handle R → Handle R
  set_status channel c status h = record h {
    channels = put channel (record c { status = status }) h.channels;
  }

  -- send_packet returns before its answer, as where `post_packet` fails: the entry stays.
  unfoldable pub abandon : ℕ → Channel R → Handle R → Handle R
  abandon channel c h = set_status channel c (drop_receiver c.status) h

  -- `tx.send(result).expect("receiver dropped")`.
  unfoldable pub use_sender : ℕ → Channel R → R → Status R → Handle R → Handle R × Delivery
  use_sender channel c r waiting h = (set_status channel c (answered r) h, delivered)
  use_sender channel c r (answered _) h = (h, panicked)
  use_sender channel c r dropped h = (set_status channel c closed h, panicked)
  use_sender channel c r closed h = (h, panicked)

  unfoldable pub send_result : ℕ → R → Option (Channel R) → Handle R → Handle R × Delivery
  unfolding use_sender
  send_result channel r none h = (h, panicked)
  send_result channel r (some c) h = use_sender channel c r c.status h

  unfoldable pub claim : ℕ → R → Option ℕ → Handle R → Handle R × Delivery
  unfolding send_result get remove
  claim sequence r none h = (h, unclaimed)
  claim sequence r (some channel) h =
      send_result channel r (get h.channels channel)
        (record h { pending_requests = remove sequence h.pending_requests })

  -- dispatch_sso_packet, once it has a result for a packet with this sequence.
  unfoldable pub complete : ℕ → R → Handle R → Handle R × Delivery
  unfolding claim get
  complete sequence r h =
      claim sequence r (get h.pending_requests sequence)
        (record h { arrived = (sequence, r) ∷ h.arrived })

  -- What tasks do to the table, one access after the other, in any order. No sequence is used again:
  -- next_sequence gives each number once.
  pub data Step : Handle R → Handle R → Type 0 where
    registers :
        (h : Handle R) (sequence channel : ℕ)
        → get h.channels channel ≡ none
        → ((other : ℕ) (c : Channel R) → get h.channels other ≡ some c → c.sequence ≢ sequence)
        → Step h (register sequence channel h)
    gives_up :
        (h : Handle R) (channel : ℕ) (c : Channel R)
        → get h.channels channel ≡ some c
        → Step h (abandon channel c h)
    completes : (h : Handle R) (sequence : ℕ) (r : R) → Step h (complete sequence r h).0

  pub data Reaches : Handle R → Type 0 where
    start : Reaches new_handle
    then_step : {h h' : Handle R} → Reaches h → Step h h' → Reaches h'
