-- ===== src/Lib.antt =====
-- The Go implementation of sipgate-sip-stream-bridge, a SIP endpoint that answers calls, streams their
-- audio over a WebSocket, forwards them on a <Dial>, and reports them over a REST API and status
-- callbacks. A call is a CallSession (go/internal/bridge/session.go) that CallManager (manager.go) keeps
-- in its indices. Its goroutines share queues and an atomic phase (state.go), and its legs (leg.go) hold
-- the SIP dialogs. When it ends it hands its last event to the StatusClient (go/internal/webhook/status.go),
-- which posts it through the SSRF guard (ssrf.go). A client changes a live call by a POST to the REST API
-- (go/internal/api): its TwiML document is parsed and dispatched (go/internal/twiml), and a <Dial> goes
-- through the mid-call adapter to the Forwarder (go/internal/sip/forwarder.go), which the guardrails
-- (guardrails.go) let pass or refuse. The registrar (registrar.go) keeps the bridge reachable, and the
-- handler (handler.go) answers an INVITE, with the WebSocket of the configuration (go/internal/config) or
-- of the document that a Voice URL (voice.go) gives.
--
-- The files:
-- - Prelude and its children: Boolean tests, lists, Go's maps (Dict), the scans of package strings
--   (Text), Go's int (Int), and subsequences.
-- - Sip/Guardrails: go/internal/sip/guardrails.go; CheckDial is check_dial, OnSessionEnd is
--   on_session_end. Target is about the normalisation, Denied about one call, Sums, Window and Rolling
--   about the 60 slots, History about every history of calls.
-- - Sip/Registrar: go/internal/sip/registrar.go; a tick of a loop is a step. Outcome is about a
--   REGISTER, Status about the gauge, Keepalive about the OPTIONS.
-- - Sip/Sdp: go/internal/sip/sdp.go, the formats of the offer and of the answer.
-- - Sip/Forwarder: go/internal/sip/forwarder.go. CallerId has the identities and URIs, Emit the events of
--   a leg and recordFailure, Invite what is sent and awaited, Dial the method Dial, cut into functions
--   at its early returns. Dial/Story, Dial/Ended and Dial/Branches are proofs.
-- - Sip/Handler: go/internal/sip/handler.go, the lifecycle events with the lookup of main.go in
--   go/cmd/sipgate-sip-stream-bridge, and onBye. Invite has onInvite, cut at its early returns; Touched,
--   Settled, Invited and Unwound are the proofs: what an event changes, how a call ends once its port is
--   taken and before, and what the deferred cleanup leaves.
-- - Twiml/Xml, Twiml/Events, Twiml/Verbs, Twiml/Parse and Twiml/Dispatch: go/internal/twiml. Xml has the
--   tokens of a document and the loops over them, Events the list of an attribute, Verbs the types,
--   Parse the attributes, Parse/Elements the elements and Parse itself, Dispatch the handlers of
--   verb_dial.go and verb_hangup.go. Parse/Tree is the reading of a document as a tree.
-- - Api/MidCall, Api/Page and Api/Calls: midcall_adapter.go, json.go and calls.go of go/internal/api, with
--   parseModifyOpts in Calls/Form. Api/Guard is the chain of middleware of server.go, security.go and
--   auth.go. PortKept, Covered, Refused and Mounted are proofs.
-- - Config: go/internal/config/config.go, with the tests of Load in Tests and its lists in Lists. Checks
--   is about each stage of Load, Loaded about Load; Tests/Passed has what a test that passes says.
-- - Observability: the labels of go/internal/observability/metrics.go.
-- - Webhook/Subscription, Webhook/Event, Webhook/Fetch, Webhook/Signer, Webhook/Voice, Webhook/Ssrf and
--   Webhook/Status: subscription.go, client.go, signer.go, voice.go, ssrf.go and status.go of
--   go/internal/webhook. Fetch/Attempts is about FetchWithFallback, Signer/Order about the sort,
--   Signer/Canonical about the signature, Voice/Counted about one Fetch. Ssrf/Blocked and Ssrf/Dialled
--   are about the addresses; in Status, Retries is about one delivery, Queue about the order, Closed
--   about DrainAndClose.
-- - Bridge/Ports: PortPool of go/internal/bridge/manager.go. Same is about two pools with the same ports.
-- - Bridge/State, Bridge/Leg and Bridge/Call: state.go, leg.go and CallSession of session.go in
--   go/internal/bridge. Leg/Sdp has the offer to a callee and the reading of its answer, Call/Callee
--   the second leg of a session as what the forwarder dials, Call/Callback markTerminated and its event,
--   Call/Lifecycle the methods that move a call, Call/History their histories. Leg/Sdp/Accepted and
--   Frame, Once, FinalEvent, Phases, Race and Byes are proofs.
-- - Bridge/Media: rtpReader, wsPacer, wsToRTP and rtpPacer of session.go, with their turns in
--   Media/Turns. Media/Relay has calleeRtpReader and calleeRtpPacer; Relay/Heard and Relay/InOrder are
--   about what the callee hears.
-- - Bridge/Manager: CallManager of manager.go. Ending, Cleanup, Kept, Listing and Drain are proofs.
-- - The modules named Examples hold tests on concrete inputs.
--
-- How the code is modelled: stateful code passes its state, a record with the fields of the Go struct. A
-- method that runs under a lock, a sync.Once or an atomic operation is one step; where goroutines
-- interleave, a history is the list of their steps, and each property of a history holds for all lists.
-- Some steps are coarser than the code, and no property rests on their being whole: CloseStream and the end
-- of run (Call/Lifecycle), and the move of a mark from one channel to the other (Media, tick and
-- drain_queue).
-- A pointer that two places share is a number into a heap. A channel is the list of what it holds, with
-- its capacity tested at each send. Times are numbers, of nanoseconds or as the source has them.
-- Counters that wrap do so modulo their width. A loop over a payload runs on fuel, the length of the
-- payload, which is enough since each turn takes a byte or more; a loop over the tokens of a document has
-- one unit of fuel more than there are tokens, which is enough since each turn takes a token or ends.
-- Texts that the code takes apart are lists of bytes, all others are strings.
--
-- What is outside: the SIP, RTP, SRTP, SDP and WebSocket libraries, the network, the resolver and the
-- clock are arguments of the steps that use them; so are the tokens and the error of encoding/xml, the
-- answers of net/http, HMAC, base64, url.ParseQuery and the record that the env library fills. Logging is
-- left out, and metrics are kept only where the code depends on them or counts by them. Not modelled are
-- the rest of the SDP (addresses and keys), the answers to an INVITE that come after Dial has returned, the
-- SIP client of digest.go, the reconnect of a WebSocket (session.go), the JSON of one call, the random identifiers, the wiring of the
-- parts and the other commands under go/cmd, go/internal/web, and the Node implementation under node/.
pub mod Prelude
pub mod Sip
pub mod Webhook
pub mod Bridge
pub mod Twiml
pub mod Observability
pub mod Api
pub mod Config
