-- ===== src/Webhook/Status/Closed.antt =====
-- DrainAndClose of status.go, and what Enqueue meets around it.
use sipgate_sip_stream_bridg.Prelude.{
  ℕ, zero, suc, ◌≡◌, refl, String, true, Option, none, some, List, [], ◌∷◌, ◌++◌, arith, ◌==◌,
  length, ◌∙◌, ap, sym,
}
use mathlib.Core.List.{append-nil, append_assoc}
use sipgate_sip_stream_bridg.Prelude.Dict.{load, delete, load-delete_self, load-store_self}
use sipgate_sip_stream_bridg.Webhook.Event.{CallbackEvent}
use sipgate_sip_stream_bridg.Webhook.Ssrf.{Url}
use sipgate_sip_stream_bridg.Webhook.Status.{
  PerCallState, StatusClient, send, work, put, get_or_create_state, drain_and_close, is_done,
  with_method, create_state,
}

eq_self : (r : ℕ) → (r == r) ≡ true
eq_self r = ground arith

-- The worker of a queue, n times in a row.
abbrev pub works : ℕ → ℕ → StatusClient → StatusClient
works zero r c = c
works (suc n) r c = works n r (work r c)

work-step :
    (e : CallbackEvent) (es : List CallbackEvent) (r : ℕ) (c : StatusClient)
    → (c.heap r).queue ≡ e ∷ es
    → (c.heap r).once ≡ true
    → let st = (work r c).heap r in
      (st.queue ≡ es)
      × (st.taken ≡ (c.heap r).taken ++ e ∷ [])
      × (st.closed ≡ (c.heap r).closed)
      × (st.once ≡ true)
unfolding work
work-step e es r c h once = rw (once, h, eq_self r) (refl, refl, refl, refl)

-- A worker that is started takes every job of its queue, in order, and leaves the rest of the state.
work-drains :
    (q : List CallbackEvent) (r : ℕ) (c : StatusClient)
    → (c.heap r).queue ≡ q
    → (c.heap r).once ≡ true
    → let st = (works (length q) r c).heap r in
      (st.queue ≡ [])
      × (st.taken ≡ (c.heap r).taken ++ q)
      × (st.closed ≡ (c.heap r).closed)
      × (st.once ≡ true)
unfolding work
work-drains [] r c h once = (h, sym (append-nil (c.heap r).taken), refl, once)
work-drains (e ∷ es) r c h once =
    let (q, t, k, o) = work-step e es r c h once in
    let (empty, all, closed, on) = work-drains es r (work r c) q o in
    (empty, all ∙ ap (λ l. l ++ es) t ∙ append_assoc (c.heap r).taken (e ∷ []) es, closed ∙ k, on)

abbrev closed_at : String → ℕ → StatusClient → StatusClient
closed_at sid r c = record c {
  per_call = delete sid c.per_call;
  heap = put r (record (c.heap r) { closed = true }) c.heap;
}

drain_and_close-found :
    (sid : String) (r : ℕ) (c : StatusClient)
    → load sid c.per_call ≡ some r
    → drain_and_close sid c ≡ closed_at sid r c
unfolding drain_and_close
drain_and_close-found sid r c h = rw h refl

put_same : (r : ℕ) (st : PerCallState) (heap : ℕ → PerCallState) → put r st heap r ≡ st
put_same r st heap = rw (eq_self r) refl

-- When DrainAndClose finds the queue of a call whose worker is started, it takes the call out of the
-- client, and in as many turns as the queue held jobs the worker takes all of them in order, each for one
-- delivery whatever comes of it, and has nothing left to wait for.
pub drain_and_close_lem :
    (sid : String) (r : ℕ) (c : StatusClient)
    → load sid c.per_call ≡ some r
    → (c.heap r).once ≡ true
    → let d = drain_and_close sid c in
      let st = (works (length (c.heap r).queue) r d).heap r in
      (load sid d.per_call ≡ none)
      × (st.taken ≡ (c.heap r).taken ++ (c.heap r).queue)
      × (is_done st ≡ true)
unfolding drain_and_close is_done
drain_and_close_lem sid r c h once =
    let d = closed_at sid r c in
    let same = put_same r (record (c.heap r) { closed = true }) c.heap in
    let (empty, all, closed, on) =
      work-drains (c.heap r).queue r d (ap (λ st. st.queue) same)
        (ap (λ st. st.once) same ∙ once) in
    rw (drain_and_close-found sid r c h) (
      load-delete_self sid c.per_call,
      all ∙ ap (λ st. st.taken ++ (c.heap r).queue) same,
      ground (arith, empty, on, closed, same),
    )

create-load :
    (sid : String) (o : Option ℕ) (c : StatusClient)
    → load sid c.per_call ≡ o
    → let (c', r) = create_state sid o c in load sid c'.per_call ≡ some r
create-load sid none c h = load-store_self sid c.next c.per_call
create-load sid (some r) c h = h

get_or_create-load :
    (sid : String) (c : StatusClient)
    → let (c', r) = get_or_create_state sid c in load sid c'.per_call ≡ some r
unfolding get_or_create_state
get_or_create-load sid c = create-load sid (load sid c.per_call) c refl

-- An Enqueue that has got the state of a call before DrainAndClose closes its queue, and sends after it,
-- panics.
pub send-drain_and_close :
    (parse : String → Option Url) (sid : String) (evt : CallbackEvent) (c : StatusClient)
    → let (c', r) = get_or_create_state sid c in
      send r (with_method evt) (drain_and_close sid c') ≡ none
unfolding send drain_and_close get_or_create_state
send-drain_and_close parse sid evt c =
    let (c', r) = get_or_create_state sid c in
    rw (drain_and_close-found sid r c' (get_or_create-load sid c))
      (rw (put_same r (record (c'.heap r) { closed = true }) c'.heap) refl)
