-- ===== src/Sip/Guardrails/Denied.antt =====
-- What one call of CheckDial of guardrails.go does to the counters, allowed or refused.
use sipgate_sip_stream_bridg.Prelude.{
  ℕ, suc, ◌+◌, ◌≤◌, ◌≡◌, String, true, Option, none, some, arith, [], if◌then◌else◌, str_eq,
  str_eq_iff,
}
use sipgate_sip_stream_bridg.Prelude.Text.{Text}
use sipgate_sip_stream_bridg.Prelude.Dict.{load-store}
use sipgate_sip_stream_bridg.Sip.Guardrails.{
  Guardrails, DialError, toll_fraud_blocked, session_count, normalize_target, match_allow_list,
  check_and_increment_global, check_dial, set_session_count, global_or_rollback, mask_target,
  reset_slot, increment_slot,
}

reset_slot_keeps :
    (now : ℕ) (g : Guardrails)
    → ((reset_slot now g).per_session ≡ g.per_session)
      × ((reset_slot now g).max_per_session ≡ g.max_per_session)
      × ((reset_slot now g).max_per_minute ≡ g.max_per_minute)
      × ((reset_slot now g).allowed_prefixes ≡ g.allowed_prefixes)
unfolding reset_slot
reset_slot_keeps now g = ground arith

-- The global check leaves the sessions and the limits alone.
pub check_and_increment_global_keeps :
    (now : ℕ) (g : Guardrails)
    → ((check_and_increment_global now g).0.per_session ≡ g.per_session)
      × ((check_and_increment_global now g).0.max_per_session ≡ g.max_per_session)
      × ((check_and_increment_global now g).0.max_per_minute ≡ g.max_per_minute)
      × ((check_and_increment_global now g).0.allowed_prefixes ≡ g.allowed_prefixes)
unfolding check_and_increment_global increment_slot
check_and_increment_global_keeps now g = ground (arith, reset_slot_keeps now g)

pub session_count-set :
    (sid j : String) (n : ℕ) (g : Guardrails)
    → session_count (set_session_count sid n g) j ≡ (if str_eq sid j then n else session_count g j)
unfolding set_session_count session_count
session_count-set sid j n g = ground (arith, load-store sid j n g.per_session)

session_count-global :
    (now : ℕ) (g : Guardrails) (j : String)
    → session_count (check_and_increment_global now g).0 j ≡ session_count g j
unfolding session_count
session_count-global now g j = rw ((check_and_increment_global_keeps now g).0, session_count)

-- The outcomes of CheckDial, its error forgotten where it carries a target.
abbrev pub limit_of : Option DialError → ℕ → ℕ
limit_of none n = suc n
limit_of (some e) n = n

-- A dial that is allowed adds one to the counter of its session and to no other; a refused one,
-- whichever limit refuses it, leaves the counter of every session at its value.
pub session_count-check_dial :
    (now : ℕ) (sid : String) (target : Text) (g : Guardrails) (j : String)
    → session_count (check_dial now sid target g).0 j ≡ (
        if str_eq sid j
        then limit_of (check_dial now sid target g).1 (session_count g j)
        else session_count g j)
unfolding check_dial global_or_rollback
session_count-check_dial now sid target g j =
    let n = session_count g sid in
    let h = set_session_count sid (n + 1) g in
    let k = (check_and_increment_global now h).0 in
    ground (
      arith,
      str_eq_iff sid j,
      session_count-set sid j (n + 1) g,
      session_count-set sid j n h,
      session_count-set sid j n k,
      session_count-global now h j,
    )

-- A dial that is allowed has a target under one of the configured prefixes; its session had room,
-- and so had the rolling minute at the second of the call.
pub check_dial_allowed :
    (now : ℕ) (sid : String) (target : Text) (g : Guardrails)
    → (check_dial now sid target g).1 ≡ none
    → (match_allow_list g.allowed_prefixes (normalize_target target) ≡ true)
      × (session_count g sid + 1 ≤ g.max_per_session)
      × ((check_and_increment_global now (set_session_count sid (session_count g sid + 1) g)).1
          ≡ true)
unfolding check_dial global_or_rollback
check_dial_allowed now sid target g h = ground arith

-- Without a configured prefix every target is refused, and nothing else of the state is touched.
pub check_dial_default_deny :
    (now : ℕ) (sid : String) (target : Text) (g : Guardrails)
    → g.allowed_prefixes ≡ []
    → check_dial now sid target g
      ≡ (g, some (toll_fraud_blocked (mask_target (normalize_target target))))
unfolding check_dial match_allow_list
check_dial_default_deny now sid target g h = ground arith
