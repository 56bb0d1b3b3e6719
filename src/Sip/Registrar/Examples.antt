-- ===== src/Sip/Registrar/Examples.antt =====
-- Tests of go/internal/sip/registrar.go.
use sipgate_sip_stream_bridg.Prelude.{◌%◌, ◌≡◌, refl, none, List, [], ◌∷◌}
use sipgate_sip_stream_bridg.Sip.Registrar.{
  Answer, response, no_answer, apply_options_response, is_options_failure, is_options_auth,
}
use sipgate_sip_stream_bridg.Sip.Registrar.Keepalive.{probe, streak, every_second, probe_lem}

-- The challenge that sipgate answers a REGISTER with.
abbrev challenge : Answer
challenge = response 401 none

-- Three failures, an answer, two failures.
abbrev answers : List Answer
answers = no_answer ∷ response 404 none ∷ response 503 none ∷ challenge ∷ no_answer ∷ no_answer ∷ []

probe_example : probe 0 answers ≡ (streak 0 answers % 2, every_second 0 answers)
probe_example = probe_lem answers

probe_triggers : probe 0 answers ≡ (0, 2)
unfolding probe apply_options_response is_options_failure is_options_auth
probe_triggers = refl
