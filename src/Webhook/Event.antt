-- ===== src/Webhook/Event.antt =====
-- go/internal/webhook/status.go, CallbackEvent: what the emitters hand to the StatusClient.
use sipgate_sip_stream_bridg.Prelude.{ℕ, String, Bool}
use sipgate_sip_stream_bridg.Prelude.Dict.{Dict}

-- A value of a form: text, a number in decimal, a time in RFC 1123 format.
pub data Value : Type 0 where
  text : String → Value
  number : ℕ → Value
  stamp : ℕ → Value

pub record CallbackEvent : Type 0 where
  pub url : String
  pub method : String
  pub form : Dict Value
  pub event : String
  pub trusted : Bool
