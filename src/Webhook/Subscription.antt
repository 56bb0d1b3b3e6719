-- ===== src/Webhook/Subscription.antt =====
-- go/internal/webhook/subscription.go: which event a subscription turns a call status into. A Go set
-- of names is the list of its members.
use sipgate_sip_stream_bridg.Prelude.{
  ◌≡◌, refl, String, Bool, true, false, ◌||◌, Option, none, some, List, [], ◌∷◌, ◌⊎◌, inl, arith,
  str_eq, if◌then◌else◌,
}

unfoldable pub contains : String → List String → Bool
contains k [] = false
contains k (x ∷ xs) = str_eq x k || contains k xs

unfoldable pub terminal_events : List String
terminal_events = "completed" ∷ "busy" ∷ "failed" ∷ "no-answer" ∷ "canceled" ∷ []

unfoldable pub is_terminal_event : String → Bool
is_terminal_event name = contains name terminal_events

unfoldable pub subscription_matches : List String → String → Bool
subscription_matches [] name = true
subscription_matches (x ∷ xs) name =
    if contains name (x ∷ xs)
    then true
    else if is_terminal_event name
    then contains "completed" (x ∷ xs)
    else false

unfoldable pub resolve_event_name : List String → String → Option String
resolve_event_name [] name = some name
resolve_event_name (x ∷ xs) name =
    if contains name (x ∷ xs)
    then some name
    else if is_terminal_event name
    then (if contains "completed" (x ∷ xs) then some "completed" else none)
    else none

abbrev pub is_some : Option String → Bool
is_some none = false
is_some (some e) = true

-- SubscriptionMatches and ResolveEventName agree, and an event resolves to its own name or, if it is
-- terminal and not itself subscribed, to a subscribed "completed".
pub resolve_event_name_lem :
    (events : List String) (name : String)
    → (subscription_matches events name ≡ is_some (resolve_event_name events name))
      × ((e : String)
          → resolve_event_name events name ≡ some e
          → (e ≡ name)
            ⊎ ((e ≡ "completed")
                × (is_terminal_event name ≡ true)
                × (contains name events ≡ false)
                × (contains "completed" events ≡ true)))
unfolding subscription_matches resolve_event_name
resolve_event_name_lem [] name = (refl, λ e h. inl (ground arith))
resolve_event_name_lem (x ∷ xs) name = (ground arith, λ e h. ground arith)
