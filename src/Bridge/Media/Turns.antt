-- ===== src/Bridge/Media/Turns.antt =====
-- The turns of the media goroutines of session.go, in any order.
use sipgate_sip_stream_bridg.Prelude.{ℕ, Bool, String, List, [], ◌∷◌}
use sipgate_sip_stream_bridg.Bridge.State.{State}
use sipgate_sip_stream_bridg.Bridge.Media.{
  Media, Outcome, tick, on_media, on_mark, on_clear, on_packet, ws_digit, ws_mark, ws_tick,
}

-- The steps of the four goroutines.
pub data Op : Type 0 where
  receives_media : List ℕ → Op
  receives_mark : String → Op
  receives_clear : Op
  receives_packet : ℕ → ℕ → List ℕ → State → Op
  ticks : Outcome → Op
  writes_digit writes_mark writes_media : Bool → Op

unfoldable pub step : Op → Media → Media
step (receives_media p) m = on_media p m
step (receives_mark name) m = on_mark name m
step receives_clear m = on_clear m
step (receives_packet pt ts p again) m = on_packet pt ts p again m
step (ticks o) m = tick o m
step (writes_digit ok) m = ws_digit ok m
step (writes_mark ok) m = ws_mark ok m
step (writes_media ok) m = ws_tick ok m

unfoldable pub run : List Op → Media → Media
run [] m = m
run (o ∷ os) m = run os (step o m)
