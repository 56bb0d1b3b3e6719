-- ===== src/Sip/Guardrails/History.antt =====
-- Both limits of guardrails.go over every history of calls of CheckDial and OnSessionEnd.
use sipgate_sip_stream_bridg.Prelude.{
  ℕ, ◌+◌, ◌≤◌, ◌<◌, ◌≡◌, refl, String, Bool, true, false, Option, none, some, List, [], ◌∷◌, inl,
  inr, arith, if◌then◌else◌, Bool-cases, ltb, str_eq, str_eq_iff,
}
use sipgate_sip_stream_bridg.Prelude.Text.{Text}
use sipgate_sip_stream_bridg.Prelude.Dict.{load, load-delete}
use sipgate_sip_stream_bridg.Sip.Guardrails.{
  Guardrails, DialError, session_count, check_and_increment_global, match_allow_list,
  normalize_target, set_session_count, global_or_rollback, check_dial, on_session_end,
  new_guardrails,
}
use sipgate_sip_stream_bridg.Sip.Guardrails.Denied.{
  session_count-check_dial, check_dial_allowed, check_and_increment_global_keeps,
}
use sipgate_sip_stream_bridg.Sip.Guardrails.Window.{window_count}
use sipgate_sip_stream_bridg.Sip.Guardrails.Rolling.{
  Limited, entered, check_global-Limited, idle-Limited, set_session_count-Limited,
}

pub data Call : Type 0 where
  dials : String → Text → Call
  ends : String → Call

-- What a history leaves on record, newest first.
pub data Entry : Type 0 where
  granted : ℕ → String → Entry
  ended : String → Entry

abbrev record_dial : ℕ → String → Option DialError → List Entry → List Entry
record_dial now sid none trace = granted now sid ∷ trace
record_dial now sid (some e) trace = trace

pub step : Guardrails × List Entry → ℕ × Call → Guardrails × List Entry
step (g, trace) (now, dials sid target) =
    let (g', refused) = check_dial now sid target g in (g', record_dial now sid refused trace)
step (g, trace) (now, ends sid) = (on_session_end sid g, ended sid ∷ trace)

pub run : Guardrails × List Entry → List (ℕ × Call) → Guardrails × List Entry
run s [] = s
run s (c ∷ cs) = run (step s c) cs

-- The seconds of the dials that were let through.
abbrev pub seconds : List Entry → List ℕ
seconds [] = []
seconds (granted now sid ∷ trace) = now ∷ seconds trace
seconds (ended sid ∷ trace) = seconds trace

-- The dials of a session that were let through since it last ended.
abbrev pub live_dials : String → List Entry → ℕ
live_dials sid [] = 0
live_dials sid (granted now j ∷ trace) = (if str_eq j sid then 1 else 0) + live_dials sid trace
live_dials sid (ended j ∷ trace) = if str_eq j sid then 0 else live_dials sid trace

-- The clock starts after `from`, and never goes back.
abbrev pub InOrder : ℕ → List (ℕ × Call) → ℕ → Type 0
InOrder from [] until = from ≤ until
InOrder from ((now, c) ∷ cs) until = (from ≤ now) × InOrder now cs until

global_or_rollback-Limited :
    (now : ℕ) (sid : String) (n : ℕ) (trace : List Entry) (r : Guardrails × Bool)
    → Limited r.0 now (entered now r.1 (seconds trace))
    → Limited
        (global_or_rollback sid n r).0
        now
        (seconds (record_dial now sid (global_or_rollback sid n r).1 trace))
unfolding global_or_rollback
global_or_rollback-Limited now sid n trace (g, true) h = h
global_or_rollback-Limited now sid n trace (g, false) h =
    set_session_count-Limited sid n g now (seconds trace) h

check_dial-Limited :
    (g : Guardrails) (last now : ℕ) (sid : String) (target : Text) (trace : List Entry)
    → Limited g last (seconds trace)
    → last ≤ now
    → 0 < now
    → Limited
        (check_dial now sid target g).0
        now
        (seconds (record_dial now sid (check_dial now sid target g).1 trace))
unfolding check_dial
check_dial-Limited g last now sid target trace h l p =
    let n = session_count g sid in
    let k = set_session_count sid (n + 1) g in
    let log = seconds trace in
    let hk = set_session_count-Limited sid (n + 1) g last log h in
    elim (Bool-cases (match_allow_list g.allowed_prefixes (normalize_target target))) [
      | inr e ↦ rw e (idle-Limited g last now log h l p)
      | inl e ↦ rw e (elim (Bool-cases (ltb g.max_per_session (n + 1))) [
        | inl f ↦
            rw f (set_session_count-Limited sid n k now log (idle-Limited k last now log hk l p))
        | inr f ↦ rw f (
            global_or_rollback-Limited now sid n trace (check_and_increment_global now k)
              (check_global-Limited k last now log hk l p))
      ])
    ]

on_session_end-Limited :
    (g : Guardrails) (last : ℕ) (log : List ℕ) (sid : String)
    → Limited g last log
    → Limited (on_session_end sid g) last log
unfolding on_session_end
on_session_end-Limited g last log sid h = record {
  tracks = record {
    exact = h.tracks.exact;
    placed = h.tracks.placed;
    recent = h.tracks.recent;
    dated = h.tracks.dated;
  };
  within = h.within;
}

run-Limited :
    (g : Guardrails) (trace : List Entry) (last until : ℕ) (cs : List (ℕ × Call))
    → Limited g last (seconds trace)
    → 0 < last
    → InOrder last cs until
    → Limited (run (g, trace) cs).0 until (seconds (run (g, trace) cs).1)
unfolding run step
run-Limited g trace last until [] h p o =
    idle-Limited g last until (seconds trace) h o (omega arith)
run-Limited g trace last until ((now, dials sid target) ∷ cs) h p o =
    run-Limited (check_dial now sid target g).0
      (record_dial now sid (check_dial now sid target g).1 trace) now until cs
      (check_dial-Limited g last now sid target trace h o.0 (omega arith)) (omega arith) o.1
run-Limited g trace last until ((now, ends sid) ∷ cs) h p o =
    run-Limited (on_session_end sid g) (ended sid ∷ trace) now until cs
      (on_session_end-Limited g now (seconds trace) sid
        (idle-Limited g last now (seconds trace) h o.0 (omega arith)))
      (omega arith) o.1

new-Limited : (prefixes : List Text) (a b : ℕ) → Limited (new_guardrails prefixes a b) 1 []
unfolding new_guardrails
new-Limited prefixes a b = record {
  tracks = record {
    exact = λ i h. refl;
    placed = λ i h p. absurd (omega arith);
    recent = λ t h m. absurd (omega arith);
    dated = λ t h. absurd (omega arith);
  };
  within = omega arith;
}

check_dial-max_per_minute :
    (now : ℕ) (sid : String) (target : Text) (g : Guardrails)
    → ((check_dial now sid target g).0.max_per_minute ≡ g.max_per_minute)
      × ((check_dial now sid target g).0.max_per_session ≡ g.max_per_session)
unfolding check_dial global_or_rollback set_session_count
check_dial-max_per_minute now sid target g = ground (
  arith,
  check_and_increment_global_keeps now (set_session_count sid (session_count g sid + 1) g),
)

run-max :
    (g : Guardrails) (trace : List Entry) (cs : List (ℕ × Call))
    → ((run (g, trace) cs).0.max_per_minute ≡ g.max_per_minute)
      × ((run (g, trace) cs).0.max_per_session ≡ g.max_per_session)
unfolding run step on_session_end
run-max g trace [] = (refl, refl)
run-max g trace ((now, dials sid target) ∷ cs) = ground (
  arith,
  check_dial-max_per_minute now sid target g,
  run-max (check_dial now sid target g).0
      (record_dial now sid (check_dial now sid target g).1 trace) cs,
)
run-max g trace ((now, ends sid) ∷ cs) =
    ground (arith, run-max (on_session_end sid g) (ended sid ∷ trace) cs)

-- However the sessions of a fresh process dial and end, in any 60 seconds up to a time `until` after
-- the last call at most `per_minute` dials are let through, if the clock starts after 0 and does not
-- go back.
pub rolling_limit :
    (prefixes : List Text) (per_session per_minute until : ℕ) (cs : List (ℕ × Call))
    → InOrder 1 cs until
    → window_count until (seconds (run (new_guardrails prefixes per_session per_minute, []) cs).1)
      ≤ per_minute
unfolding new_guardrails
rolling_limit prefixes a b until cs o = ground (
  arith,
  (run-Limited (new_guardrails prefixes a b) [] 1 until cs (new-Limited prefixes a b) (omega arith)
      o).within,
  run-max (new_guardrails prefixes a b) [] cs,
)

-- The counter of each session is what the history says, and within the limit.
pub record Counted (g : Guardrails) (trace : List Entry) : Type 0 where
  pub counter : (sid : String) → session_count g sid ≡ live_dials sid trace
  pub capped : (sid : String) → session_count g sid ≤ g.max_per_session

check_dial-Counted :
    (g : Guardrails) (now : ℕ) (sid : String) (target : Text) (trace : List Entry)
    → Counted g trace
    → Counted
        (check_dial now sid target g).0
        (record_dial now sid (check_dial now sid target g).1 trace)
check_dial-Counted g now sid target trace h = record {
  counter = λ j.
      ground (arith, session_count-check_dial now sid target g j, h.counter j, str_eq_iff sid j);
  capped = λ j. ground (
    arith,
    session_count-check_dial now sid target g j,
    h.capped j,
    str_eq_iff sid j,
    check_dial_allowed now sid target g,
    check_dial-max_per_minute now sid target g,
  );
}

on_session_end-Counted :
    (g : Guardrails) (sid : String) (trace : List Entry)
    → Counted g trace
    → Counted (on_session_end sid g) (ended sid ∷ trace)
unfolding on_session_end session_count
on_session_end-Counted g sid trace h = record {
  counter = λ j. ground (arith, load-delete sid j g.per_session, h.counter j);
  capped = λ j. ground (arith, load-delete sid j g.per_session, h.capped j);
}

run-Counted :
    (g : Guardrails) (trace : List Entry) (cs : List (ℕ × Call))
    → Counted g trace
    → Counted (run (g, trace) cs).0 (run (g, trace) cs).1
unfolding run step
run-Counted g trace [] h = h
run-Counted g trace ((now, dials sid target) ∷ cs) h =
    run-Counted (check_dial now sid target g).0
      (record_dial now sid (check_dial now sid target g).1 trace) cs
      (check_dial-Counted g now sid target trace h)
run-Counted g trace ((now, ends sid) ∷ cs) h =
    run-Counted (on_session_end sid g) (ended sid ∷ trace) cs (on_session_end-Counted g sid trace h)

new-Counted : (prefixes : List Text) (a b : ℕ) → Counted (new_guardrails prefixes a b) []
unfolding new_guardrails session_count load
new-Counted prefixes a b = record { counter = λ sid. refl; capped = λ sid. omega arith }

-- However the sessions of a fresh process dial and end, the counter of a session is the number of its
-- dials that were let through since it last ended, and that number never passes `per_session`.
pub session_limit :
    (prefixes : List Text) (per_session per_minute : ℕ) (cs : List (ℕ × Call)) (sid : String)
    → let (g, trace) = run (new_guardrails prefixes per_session per_minute, []) cs in
      (session_count g sid ≡ live_dials sid trace) × (live_dials sid trace ≤ per_session)
unfolding new_guardrails
session_limit prefixes a b cs sid =
    let c = run-Counted (new_guardrails prefixes a b) [] cs (new-Counted prefixes a b) in
    (
      c.counter sid,
      omega (arith, c.counter sid, c.capped sid, run-max (new_guardrails prefixes a b) [] cs),
    )
