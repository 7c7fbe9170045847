-- ===== src/Errors.antt =====
-- mania/src/core/error.rs, and BusinessError of mania/src/core/business.rs. An I/O error is its text.
use mania.Base.{ℕ, List}
use mania.Event.{EventError}
use mania.Highway.Frame.{HighwayError}

pub data BusinessError : Type 0 where
  network_error : List ℕ → BusinessError
  invalid_server_response : List ℕ → BusinessError
  generic_error : List ℕ → BusinessError
  internal_event_error : EventError → BusinessError

pub data ManiaError : Type 0 where
  network_error : List ℕ → ManiaError
  generic_error : List ℕ → ManiaError
  internal_event_downcast_error : ManiaError
  internal_business_error : BusinessError → ManiaError
  high_way_error : HighwayError → ManiaError
