-- ===== src/Bridge/State.antt =====
-- go/internal/bridge/state.go: the phases of a call and the compare-and-swap between them.
use sipgate_sip_stream_bridg.Prelude.{String, Bool, true, false, if◌then◌else◌}

pub data State : Type 0 where
  dispatching streaming forwarding_setup forwarding redirected hung_up terminated dialing_out :
      State

unfoldable pub state_name : State → String
state_name dispatching = "dispatching"
state_name streaming = "streaming"
state_name forwarding_setup = "forwarding-setup"
state_name forwarding = "forwarding"
state_name redirected = "redirected"
state_name hung_up = "hung-up"
state_name terminated = "terminated"
state_name dialing_out = "dialing-out"

abbrev pub state_eq : State → State → Bool
state_eq dispatching dispatching = true
state_eq streaming streaming = true
state_eq forwarding_setup forwarding_setup = true
state_eq forwarding forwarding = true
state_eq redirected redirected = true
state_eq hung_up hung_up = true
state_eq terminated terminated = true
state_eq dialing_out dialing_out = true
state_eq _ _ = false

-- a.CAS(old, new), of which the callers ignore the result.
abbrev pub cas : State → State → State → State
cas old new s = if state_eq s old then new else s
