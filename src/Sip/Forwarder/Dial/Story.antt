-- ===== src/Sip/Forwarder/Dial/Story.antt =====
-- go/internal/sip/forwarder.go, Dial: the status callbacks of one dial, from "initiated" to the one
-- terminal event, and its counts.
use mathlib.Core.List.{append_assoc, append-nil}
use sipgate_sip_stream_bridg.Prelude.{
  ℕ, suc, ◌+◌, ◌%◌, ◌^◌, ◌<◌, ◌≤◌, ◌≡◌, refl, ap, ◌∙◌, String, true, false, List, [], ◌∷◌, ◌++◌,
  inl, inr, arith, if◌then◌else◌, Bool-cases, length,
}
use sipgate_sip_stream_bridg.Prelude.Dict.{store, load-store_self}
use sipgate_sip_stream_bridg.Sip.Forwarder.Emit.{
  DialOpts, Forwarder, ForwarderConfig, LegEvent, LegId, counter, is_subscribed, leg_event,
  emit_dial_event, send_event, next_leg_sequence,
}

-- An event to tell: its name, its CallStatus, its time.
pub record Told : Type 0 where
  pub name : String
  pub call_status : String
  pub time : ℕ

module _ (cfg : ForwarderConfig) (opts : DialOpts) (leg : LegId) where
  -- The events of the list that are subscribed, with the sequence numbers from `n` on.
  unfoldable pub numbered : ℕ → List Told → List (String × LegEvent)
  numbered n [] = []
  numbered n (t ∷ ts) =
      let rest = numbered n ts in
      let next = numbered (suc n) ts in
      if is_subscribed cfg opts t.name
      then (leg.dial_call_sid, leg_event cfg opts t.name t.call_status leg n t.time) ∷ next
      else rest

  unfoldable pub sent : List Told → ℕ
  sent [] = 0
  sent (t ∷ ts) = let rest = sent ts in if is_subscribed cfg opts t.name then suc rest else rest

  numbered-append :
      (n : ℕ) (ts us : List Told)
      → numbered n (ts ++ us) ≡ numbered n ts ++ numbered (n + sent ts) us
  unfolding numbered sent
  numbered-append n [] us = ap (λ k. numbered k us) (omega arith)
  numbered-append n (t ∷ ts) us = elim (Bool-cases (is_subscribed cfg opts t.name)) [
    | inl e ↦
        rw (e, numbered-append (suc n) ts us)
          (let k : suc n + sent ts ≡ n + suc (sent ts) = omega arith in rw k)
    | inr e ↦ rw (e, numbered-append n ts us)
  ]

  sent-append : (ts us : List Told) → sent (ts ++ us) ≡ sent ts + sent us
  unfolding sent
  sent-append [] us = omega arith
  sent-append (t ∷ ts) us = ground (arith, sent-append ts us)

  sent-le : (ts : List Told) → sent ts ≤ length ts
  unfolding sent
  sent-le [] = omega arith
  sent-le (t ∷ ts) = ground (arith, sent-le ts)

stored :
    (sid : String) (n : ℕ) (f : Forwarder)
    → counter sid (record f { leg_seqs = store sid n f.leg_seqs }) ≡ n
unfolding counter
stored sid n f = rw (counter, load-store_self sid n f.leg_seqs)

emit_dial_event-yes :
    (opts : DialOpts) (name call_status : String) (leg : LegId) (now : ℕ) (f : Forwarder)
    → is_subscribed f.cfg opts name ≡ true
    → ((emit_dial_event opts name call_status leg now f).cfg ≡ f.cfg)
      × ((emit_dial_event opts name call_status leg now f).enqueued
          ≡ f.enqueued
            ++ (
              leg.dial_call_sid,
              leg_event f.cfg opts name call_status leg (counter leg.dial_call_sid f) now,
            )
              ∷ [])
      × (counter leg.dial_call_sid (emit_dial_event opts name call_status leg now f)
          ≡ (counter leg.dial_call_sid f + 1) % 2 ^ 64)
unfolding emit_dial_event send_event next_leg_sequence
emit_dial_event-yes opts name call_status leg now f e =
    rw e (refl, refl, stored leg.dial_call_sid _ f)

emit_dial_event-no :
    (opts : DialOpts) (name call_status : String) (leg : LegId) (now : ℕ) (f : Forwarder)
    → is_subscribed f.cfg opts name ≡ false
    → emit_dial_event opts name call_status leg now f ≡ f
unfolding emit_dial_event
emit_dial_event-no opts name call_status leg now f e = rw e

-- `f` has told these events since `f0`, and nothing else.
abbrev pub Tells : DialOpts → LegId → Forwarder → Forwarder → List Told → Type 0
Tells opts leg f0 f ts =
    (f.cfg ≡ f0.cfg)
    × (f.enqueued ≡ f0.enqueued ++ numbered f0.cfg opts leg 0 ts)
    × (counter leg.dial_call_sid f ≡ sent f0.cfg opts leg ts)

module _ (cfg : ForwarderConfig) (opts : DialOpts) (leg : LegId) (ts : List Told) (t : Told) where
  numbered-yes :
      is_subscribed cfg opts t.name ≡ true
      → numbered cfg opts leg 0 (ts ++ t ∷ [])
        ≡ numbered cfg opts leg 0 ts
          ++ (
            leg.dial_call_sid,
            leg_event cfg opts t.name t.call_status leg (sent cfg opts leg ts) t.time,
          )
            ∷ []
  unfolding numbered
  numbered-yes e =
      let z : 0 + sent cfg opts leg ts ≡ sent cfg opts leg ts = omega arith in
      rw (numbered-append cfg opts leg 0 ts (t ∷ []), e, z)

  numbered-no :
      is_subscribed cfg opts t.name ≡ false
      → numbered cfg opts leg 0 (ts ++ t ∷ []) ≡ numbered cfg opts leg 0 ts
  unfolding numbered
  numbered-no e = rw (numbered-append cfg opts leg 0 ts (t ∷ []), e) (append-nil _)

  sent-last :
      sent cfg opts leg (ts ++ t ∷ [])
      ≡ sent cfg opts leg ts + (if is_subscribed cfg opts t.name then 1 else 0)
  unfolding sent
  sent-last = ground (arith, sent-append cfg opts leg ts (t ∷ []))

pub emit_dial_event-Tells :
    (opts : DialOpts) (leg : LegId) (f0 f : Forwarder) (ts : List Told) (t : Told)
    → length ts < 2 ^ 63
    → Tells opts leg f0 f ts
    → Tells opts leg f0 (emit_dial_event opts t.name t.call_status leg t.time f) (ts ++ t ∷ [])
emit_dial_event-Tells opts leg f0 f ts t short (same, queue, seq) =
    elim (Bool-cases (is_subscribed f0.cfg opts t.name)) [
      | inl e ↦
          let here = ap (λ c. is_subscribed c opts t.name) same in
          let (c, q, k) = emit_dial_event-yes opts t.name t.call_status leg t.time f (here ∙ e) in
          (
            c ∙ same,
            cc (
              q,
              queue,
              same,
              seq,
              numbered-yes f0.cfg opts leg ts t e,
              append_assoc f0.enqueued (numbered f0.cfg opts leg 0 ts) (
                  (
                    leg.dial_call_sid,
                    leg_event f0.cfg opts t.name t.call_status leg (sent f0.cfg opts leg ts) t.time,
                  )
                  ∷ []),
            ),
            ground (arith, k, seq, sent-last f0.cfg opts leg ts t, sent-le f0.cfg opts leg ts),
          )
      | inr e ↦
          let here = ap (λ c. is_subscribed c opts t.name) same in
          let still = emit_dial_event-no opts t.name t.call_status leg t.time f (here ∙ e) in
          (
            ap (λ (g : Forwarder). g.cfg) still ∙ same,
            cc (
              ap (λ (g : Forwarder). g.enqueued) still,
              queue,
              numbered-no f0.cfg opts leg ts t e,
            ),
            ground
                (arith, ap (counter leg.dial_call_sid) still, seq, sent-last f0.cfg opts leg ts t),
          )
    ]
