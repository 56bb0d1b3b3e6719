-- ===== src/Webhook/Status/Queue.antt =====
-- The queue of a call in status.go: its bound, and the order of its events.
use sipgate_sip_stream_bridg.Prelude.{
  ℕ, ◌≤◌, ◌≡◌, refl, true, Option, none, some, List, [], ◌∷◌, ◌++◌, arith, ◌==◌, length,
  length-append, ◌∙◌, ap, sym,
}
use mathlib.Core.List.{append_assoc, append-nil}
use sipgate_sip_stream_bridg.Webhook.Event.{CallbackEvent}
use sipgate_sip_stream_bridg.Webhook.Status.{
  PerCallState, StatusClient, send, work, taken_job, per_call_queue_depth, EnqueueError,
}

-- One queue seen alone: an event is offered to it, or its worker takes the next job.
pub data Move : Type 0 where
  offers : CallbackEvent → Move
  works : Move

-- The client after a move of the queue `r`, and the event it accepted; a panic accepts none.
abbrev pub sent :
    StatusClient
    → CallbackEvent
    → Option (StatusClient × Option EnqueueError)
    → StatusClient × List CallbackEvent
sent c e none = (c, [])
sent c e (some (c', none)) = (c', e ∷ [])
sent c e (some (c', some err)) = (c', [])

unfoldable pub move : ℕ → Move → StatusClient → StatusClient × List CallbackEvent
move r (offers e) c = sent c e (send r e c)
move r works c = (work r c, [])

unfoldable pub moves : ℕ → List Move → StatusClient → StatusClient × List CallbackEvent
moves r [] c = (c, [])
moves r (m ∷ ms) c = let (c', one) = move r m c in let (t, rest) = moves r ms c' in (t, one ++ rest)

-- All that a queue has been handed, in order.
abbrev pub handed : PerCallState → List CallbackEvent
handed st = st.taken ++ st.queue

eq_self : (r : ℕ) → (r == r) ≡ true
eq_self r = ground arith

send-handed :
    (r : ℕ) (e : CallbackEvent) (c : StatusClient)
    → let (c', one) = sent c e (send r e c) in handed (c'.heap r) ≡ handed (c.heap r) ++ one
unfolding send
send-handed r e c = ground (
  arith,
  eq_self r,
  append_assoc (c.heap r).taken (c.heap r).queue (e ∷ []),
  append-nil (handed (c.heap r)),
)

taken-handed :
    (r : ℕ) (q : List CallbackEvent) (c : StatusClient)
    → (c.heap r).queue ≡ q
    → handed ((taken_job r (c.heap r) c q).heap r) ≡ handed (c.heap r)
taken-handed r [] c h = refl
taken-handed r (e ∷ es) c h = ground (arith, eq_self r, append_assoc (c.heap r).taken (e ∷ []) es)

work-handed : (r : ℕ) (c : StatusClient) → handed ((work r c).heap r) ≡ handed (c.heap r)
unfolding work
work-handed r c = ground (arith, taken-handed r (c.heap r).queue c refl)

move-handed :
    (r : ℕ) (m : Move) (c : StatusClient)
    → let (c', one) = move r m c in handed (c'.heap r) ≡ handed (c.heap r) ++ one
unfolding move
move-handed r (offers e) c = send-handed r e c
move-handed r works c = work-handed r c ∙ sym (append-nil (handed (c.heap r)))

send-bounded :
    (r : ℕ) (e : CallbackEvent) (c : StatusClient)
    → length (c.heap r).queue ≤ per_call_queue_depth
    → length ((sent c e (send r e c)).0.heap r).queue ≤ per_call_queue_depth
unfolding send
send-bounded r e c h = ground (arith, eq_self r, length-append (c.heap r).queue (e ∷ []))

taken-bounded :
    (r : ℕ) (q : List CallbackEvent) (c : StatusClient)
    → (c.heap r).queue ≡ q
    → length ((taken_job r (c.heap r) c q).heap r).queue ≤ length (c.heap r).queue
taken-bounded r [] c h = omega arith
taken-bounded r (e ∷ es) c h = ground (arith, eq_self r)

move-bounded :
    (r : ℕ) (m : Move) (c : StatusClient)
    → length (c.heap r).queue ≤ per_call_queue_depth
    → length ((move r m c).0.heap r).queue ≤ per_call_queue_depth
unfolding move work
move-bounded r (offers e) c h = send-bounded r e c h
move-bounded r works c h = ground (arith, taken-bounded r (c.heap r).queue c refl)

-- However Enqueue and the worker of a call alternate, the worker has taken and the queue holds, in this
-- order, what they did before and then exactly the events that Enqueue accepted, in the order in which
-- it accepted them; and the queue never holds more than 64.
pub moves_fifo :
    (r : ℕ) (ms : List Move) (c : StatusClient)
    → length (c.heap r).queue ≤ per_call_queue_depth
    → let (t, accepted) = moves r ms c in
      (handed (t.heap r) ≡ handed (c.heap r) ++ accepted)
      × (length (t.heap r).queue ≤ per_call_queue_depth)
unfolding moves
moves_fifo r [] c h = (sym (append-nil (handed (c.heap r))), h)
moves_fifo r (m ∷ ms) c h =
    let (c', one) = move r m c in
    let (order, bound) = moves_fifo r ms c' (move-bounded r m c h) in
    (
      order
          ∙ ap (λ l. l ++ (moves r ms c').1) (move-handed r m c)
          ∙ append_assoc (handed (c.heap r)) one (moves r ms c').1,
      bound,
    )
