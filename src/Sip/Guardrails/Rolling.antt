-- ===== src/Sip/Guardrails/Rolling.antt =====
-- The rolling limit of guardrails.go over every history of calls.
use sipgate_sip_stream_bridg.Prelude.{
  ℕ, ◌+◌, ◌%◌, ◌≤◌, ◌<◌, ◌≡◌, ◌≢◌, String, Bool, true, false, List, [], ◌∷◌, inl, inr, arith, leb,
  Bool-cases,
}
use sipgate_sip_stream_bridg.Sip.Guardrails.{
  Guardrails, slot_count, sum_slots, reset_slot, increment_slot, check_and_increment_global,
  set_session_count,
}
use sipgate_sip_stream_bridg.Sip.Guardrails.Denied.{check_and_increment_global_keeps}
use sipgate_sip_stream_bridg.Sip.Guardrails.Window.{
  occurrences, window_count, Tracks, sum_slots-window_count,
}

-- The window at a later time holds no more of a log that is over.
window_count_mono : (t u : ℕ) (log : List ℕ) → t ≤ u → window_count u log ≤ window_count t log
window_count_mono t u [] h = omega arith
window_count_mono t u (x ∷ log) h = ground (arith, window_count_mono t u log h)

-- A second that the slots do not hold any more is not in the log.
fresh_second :
    (g : Guardrails) (last now : ℕ) (log : List ℕ)
    → Tracks g last log
    → last ≤ now
    → g.bucket_secs (now % 60) ≢ now
    → occurrences now log ≡ 0
fresh_second g last now log w l ne = ground (arith, w.recent now)

reset_slot-exact :
    (g : Guardrails) (last now : ℕ) (log : List ℕ)
    → Tracks g last log
    → last ≤ now
    → (i : ℕ) → i < 60
    → (reset_slot now g).bucket_counts i ≡ occurrences ((reset_slot now g).bucket_secs i) log
unfolding reset_slot
reset_slot-exact g last now log w l i h =
    ground (arith, w.exact i h, fresh_second g last now log w l)

reset_slot-recent :
    (g : Guardrails) (last now : ℕ) (log : List ℕ)
    → Tracks g last log
    → last ≤ now
    → (t : ℕ) → 0 < occurrences t log
    → now < t + 60
    → (reset_slot now g).bucket_secs (t % 60) ≡ t
unfolding reset_slot
reset_slot-recent g last now log w l t h m = ground (arith, w.recent t h, w.dated t h)

reset_slot-Tracks :
    (g : Guardrails) (last now : ℕ) (log : List ℕ)
    → Tracks g last log
    → last ≤ now
    → Tracks (reset_slot now g) now log
reset_slot-Tracks g last now log w l = record {
  exact = reset_slot-exact g last now log w l;
  placed = λ i h p. unfold reset_slot in ground (arith, w.placed i h);
  recent = reset_slot-recent g last now log w l;
  dated = λ t h. ground (arith, w.dated t h);
}

reset_slot_current : (g : Guardrails) (now : ℕ) → (reset_slot now g).bucket_secs (now % 60) ≡ now
unfolding reset_slot
reset_slot_current g now = ground arith

increment_slot-Tracks :
    (g : Guardrails) (now : ℕ) (log : List ℕ)
    → 0 < now
    → g.bucket_secs (now % 60) ≡ now
    → Tracks g now log
    → Tracks (increment_slot now g) now (now ∷ log)
unfolding increment_slot
increment_slot-Tracks g now log p e w = record {
  exact = λ i h. ground (arith, w.exact i h, w.exact (now % 60), w.placed i h);
  placed = λ i h q. w.placed i h q;
  recent = λ t h m. ground (arith, w.recent t);
  dated = λ t h. ground (arith, w.dated t);
}

reset_slot-max_per_minute :
    (now : ℕ) (g : Guardrails) → (reset_slot now g).max_per_minute ≡ g.max_per_minute
unfolding reset_slot
reset_slot-max_per_minute now g = ground arith

-- The log after a dial: its second is entered if it was let through.
abbrev pub entered : ℕ → Bool → List ℕ → List ℕ
entered now true log = now ∷ log
entered now false log = log

-- The slots know the log, and the log keeps the limit at its last time.
pub record Limited (g : Guardrails) (last : ℕ) (log : List ℕ) : Type 0 where
  pub tracks : Tracks g last log
  pub within : window_count last log ≤ g.max_per_minute

module _ (g : Guardrails) (last now : ℕ) (log : List ℕ) (h : Limited g last log)
    (later : last ≤ now) (positive : 0 < now) where
  check_global-Tracks :
      Tracks
        (check_and_increment_global now g).0
        now
        (entered now (check_and_increment_global now g).1 log)
  unfolding check_and_increment_global
  check_global-Tracks =
      let r = reset_slot now g in
      let w = reset_slot-Tracks g last now log h.tracks later in
      elim (Bool-cases (leb r.max_per_minute (sum_slots 60 (slot_count r now)))) [
        | inl e ↦ rw e w
        | inr e ↦ rw e (increment_slot-Tracks r now log positive (reset_slot_current g now) w)
      ]

  check_global_within :
      window_count now (entered now (check_and_increment_global now g).1 log) ≤ g.max_per_minute
  unfolding check_and_increment_global
  check_global_within =
      let r = reset_slot now g in
      ground (
        arith,
        sum_slots-window_count r now now log (reset_slot-Tracks g last now log h.tracks later),
        reset_slot-max_per_minute now g,
        window_count_mono last now log later,
        h.within,
      )

  pub check_global-Limited :
      Limited
        (check_and_increment_global now g).0
        now
        (entered now (check_and_increment_global now g).1 log)
  check_global-Limited = record {
    tracks = check_global-Tracks;
    within = rw (check_and_increment_global_keeps now g).2 check_global_within;
  }

  pub idle-Limited : Limited g now log
  idle-Limited = record {
    tracks = record {
      exact = h.tracks.exact;
      placed = h.tracks.placed;
      recent = λ t o m. h.tracks.recent t o (omega arith);
      dated = λ t o. omega (arith, h.tracks.dated t o);
    };
    within = omega (arith, window_count_mono last now log later, h.within);
  }

pub set_session_count-Limited :
    (sid : String) (n : ℕ) (g : Guardrails) (last : ℕ) (log : List ℕ)
    → Limited g last log
    → Limited (set_session_count sid n g) last log
unfolding set_session_count
set_session_count-Limited sid n g last log h = record {
  tracks = record {
    exact = h.tracks.exact;
    placed = h.tracks.placed;
    recent = h.tracks.recent;
    dated = h.tracks.dated;
  };
  within = h.within;
}
