-- ===== src/Sip/Registrar/Status.antt =====
-- The registration status of registrar.go and its gauge.
use sipgate_sip_stream_bridg.Prelude.{
  suc, ◌≡◌, List, [], ◌∷◌, inl, inr, arith, if◌then◌else◌, Bool-cases,
}
use sipgate_sip_stream_bridg.Sip.Registrar.{
  Answer, Registrar, do_register, register, reregister_tick, options_tick, unregister, answered,
  lose_on_error, apply_options_response, is_options_failure,
}

-- The steps of the registrar.
pub data Op : Type 0 where
  registers reregisters unregisters : Answer → Answer → Op
  probes : Answer → Answer → Answer → Op

unfoldable pub step : Op → Registrar → Registrar
step (registers first again) r = (register first again r).0
step (reregisters first again) r = reregister_tick first again r
step (unregisters first again) r = (unregister first again r).0
step (probes a first again) r = options_tick a first again r

unfoldable pub run : List Op → Registrar → Registrar
run [] r = r
run (o ∷ os) r = run os (step o r)

-- The gauge tells the status.
abbrev pub IsShown : Registrar → Type 0
IsShown r = r.gauge ≡ (if r.registered then 1 else 0)

lose_on_error-IsShown :
    (first again : Answer) (r : Registrar)
    → IsShown r
    → IsShown (lose_on_error (answered first again r))
lose_on_error-IsShown first again r h = ground arith

options_tick-IsShown :
    (a first again : Answer) (r : Registrar) → IsShown r → IsShown (options_tick a first again r)
unfolding options_tick do_register
options_tick-IsShown a first again r h =
    let counted = record r {
      consecutive_failures = (apply_options_response r.consecutive_failures a).0;
      options_failures =
          if is_options_failure a then suc r.options_failures else r.options_failures;
    } in
    elim (Bool-cases (apply_options_response r.consecutive_failures a).1) [
      | inl e ↦ rw e (lose_on_error-IsShown first again counted h)
      | inr e ↦ rw e h
    ]

step-IsShown : (o : Op) (r : Registrar) → IsShown r → IsShown (step o r)
unfolding step register reregister_tick unregister do_register
step-IsShown (registers first again) r h = ground arith
step-IsShown (reregisters first again) r h = ground arith
step-IsShown (unregisters first again) r h = ground arith
step-IsShown (probes a first again) r h = options_tick-IsShown a first again r h

-- Over every history of registrations, re-registrations, keepalives and de-registrations, with any
-- answers, the gauge stays 1 exactly while the bridge counts as registered, and 0 otherwise.
status-IsShown : (os : List Op) (r : Registrar) → IsShown r → IsShown (run os r)
unfolding run
status-IsShown [] r h = h
status-IsShown (o ∷ os) r h = status-IsShown os (step o r) (step-IsShown o r h)
