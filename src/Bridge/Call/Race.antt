-- ===== src/Bridge/Call/Race.antt =====
-- Terminate of session.go makes its three compare-and-swaps while CloseStream and OnAnswered of other
-- goroutines make theirs.
use sipgate_sip_stream_bridg.Prelude.{◌≡◌, List, [], ◌∷◌, ◌⊎◌, arith}
use sipgate_sip_stream_bridg.Bridge.State.{
  State, streaming, forwarding, terminated, dialing_out, cas,
}

-- The swaps of other goroutines: CloseStream, OnAnswered, and Terminate's own from another caller.
pub data Rival : Type 0 where
  closes answers ends_streaming ends_dialing ends_forwarding : Rival

abbrev rival : Rival → State → State
rival closes = cas streaming dialing_out
rival answers = cas dialing_out forwarding
rival ends_streaming = cas streaming terminated
rival ends_dialing = cas dialing_out terminated
rival ends_forwarding = cas forwarding terminated

unfoldable pub rivals : List Rival → State → State
rivals [] s = s
rivals (r ∷ rs) s = rivals rs (rival r s)

-- The swaps of one Terminate, with what others do before, between and after them.
unfoldable pub racing_terminate : List Rival → List Rival → List Rival → List Rival → State → State
racing_terminate before first second after s = rivals after (
    cas forwarding terminated (
      rivals second
        (cas dialing_out terminated (rivals first (cas streaming terminated (rivals before s))))))

abbrev PastStreaming : State → Type 0
PastStreaming s = (s ≡ dialing_out) ⊎ (s ≡ forwarding) ⊎ (s ≡ terminated)

abbrev PastDialing : State → Type 0
PastDialing s = (s ≡ forwarding) ⊎ (s ≡ terminated)

abbrev pub HasMedia : State → Type 0
HasMedia s = (s ≡ streaming) ⊎ PastStreaming s

rivals-HasMedia : (rs : List Rival) (s : State) → HasMedia s → HasMedia (rivals rs s)
unfolding rivals
rivals-HasMedia [] s h = h
rivals-HasMedia (r ∷ rs) s h = rivals-HasMedia rs (rival r s) (ground arith)

rivals-PastStreaming : (rs : List Rival) (s : State) → PastStreaming s → PastStreaming (rivals rs s)
unfolding rivals
rivals-PastStreaming [] s h = h
rivals-PastStreaming (r ∷ rs) s h = rivals-PastStreaming rs (rival r s) (ground arith)

rivals-PastDialing : (rs : List Rival) (s : State) → PastDialing s → PastDialing (rivals rs s)
unfolding rivals
rivals-PastDialing [] s h = h
rivals-PastDialing (r ∷ rs) s h = rivals-PastDialing rs (rival r s) (ground arith)

rivals-terminated : (rs : List Rival) (s : State) → s ≡ terminated → rivals rs s ≡ terminated
unfolding rivals
rivals-terminated [] s h = h
rivals-terminated (r ∷ rs) s h = rivals-terminated rs (rival r s) (ground arith)

swap-PastStreaming : (s : State) → HasMedia s → PastStreaming (cas streaming terminated s)
swap-PastStreaming s h = ground arith

swap-PastDialing : (s : State) → PastStreaming s → PastDialing (cas dialing_out terminated s)
swap-PastDialing s h = ground arith

swap-terminated : (s : State) → PastDialing s → cas forwarding terminated s ≡ terminated
swap-terminated s h = ground arith

-- Whatever swaps CloseStream, OnAnswered and other Terminates slip in before, between and after the
-- three of one Terminate, a call that was streaming, dialling, forwarding or terminated is terminated
-- in the end.
pub racing_terminate_lem :
    (before first second after : List Rival) (s : State)
    → HasMedia s
    → racing_terminate before first second after s ≡ terminated
unfolding racing_terminate
racing_terminate_lem before first second after s h =
    let s1 = cas streaming terminated (rivals before s) in
    let s2 = cas dialing_out terminated (rivals first s1) in
    let h1 = swap-PastStreaming (rivals before s) (rivals-HasMedia before s h) in
    let h2 = swap-PastDialing (rivals first s1) (rivals-PastStreaming first s1 h1) in
    let h3 = swap-terminated (rivals second s2) (rivals-PastDialing second s2 h2) in
    rivals-terminated after (cas forwarding terminated (rivals second s2)) h3
