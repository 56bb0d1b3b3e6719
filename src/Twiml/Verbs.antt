-- ===== src/Twiml/Verbs.antt =====
-- go/internal/twiml/verbs.go: the verbs of a document. Texts of the document are lists of codes; a
-- pointer that may be nil is an Option, and a nil slice the empty list. The keys of
-- Stream.Parameters are compared as texts.
use sipgate_sip_stream_bridg.Prelude.{
  Bool, false, not, String, List, [], ◌∷◌, Option, none, some, if◌then◌else◌,
}
use sipgate_sip_stream_bridg.Prelude.Text.{Text, trim_space, same, is_empty}
use sipgate_sip_stream_bridg.Prelude.Int.{ℤ}

pub record Stream : Type 0 where
  pub url : Text
  pub name : Text
  pub track : Text
  pub parameters : List (Text × Text)

pub record Connect : Type 0 where
  pub stream : Option Stream

pub record Number : Type 0 where
  pub text : Text
  pub status_callback : Text
  pub status_callback_method : Text
  pub status_callback_events : List Text

pub record Dial : Type 0 where
  pub caller_id : Text
  pub timeout : Option ℤ
  pub time_limit : Option ℤ
  pub hangup_on_star : Bool
  pub action : Text
  pub method : Text
  pub answer_on_bridge : Option Bool
  pub number_text : Text
  pub number : Option Number
  pub has_sip : Bool
  pub has_client : Bool
  pub has_conference : Bool
  pub has_queue : Bool
  pub status_callback : Text
  pub status_callback_method : Text
  pub status_callback_events : List Text

pub record Redirect : Type 0 where
  pub method : Text
  pub url : Text

pub record Reject : Type 0 where
  pub reason : Text

pub data Verb : Type 0 where
  connect : Connect → Verb
  dial : Dial → Verb
  hangup : Verb
  redirect : Redirect → Verb
  reject : Reject → Verb
  unknown_verb : String → Verb

pub record Response : Type 0 where
  pub verbs : List Verb

-- XMLName, its local name
unfoldable pub xml_name : Verb → String
xml_name (connect c) = "Connect"
xml_name (dial d) = "Dial"
xml_name hangup = "Hangup"
xml_name (redirect r) = "Redirect"
xml_name (reject r) = "Reject"
xml_name (unknown_verb name) = name

abbrev pub no_stream : Stream
no_stream = record { url = []; name = []; track = []; parameters = [] }

abbrev pub no_number : Number
no_number = record {
  text = [];
  status_callback = [];
  status_callback_method = [];
  status_callback_events = [];
}

abbrev pub no_dial : Dial
no_dial = record {
  caller_id = [];
  timeout = none;
  time_limit = none;
  hangup_on_star = false;
  action = [];
  method = [];
  answer_on_bridge = none;
  number_text = [];
  number = none;
  has_sip = false;
  has_client = false;
  has_conference = false;
  has_queue = false;
  status_callback = [];
  status_callback_method = [];
  status_callback_events = [];
}

-- The target, and whether it was given twice.
unfoldable pub resolve_target : Option Number → Text → Text × Bool
unfolding trim_space is_empty
resolve_target (some n) text = (trim_space n.text, not (is_empty text))
resolve_target none text = (text, false)

unfoldable pub resolve_dial_target : Dial → Text × Bool
unfolding resolve_target
resolve_dial_target d = resolve_target d.number (trim_space d.number_text)

-- `m[k] = v` on a map with texts as keys
unfoldable pub set_parameter : Text → Text → List (Text × Text) → List (Text × Text)
set_parameter k v [] = (k, v) ∷ []
set_parameter k v ((j, w) ∷ m) = if same j k then (k, v) ∷ m else (j, w) ∷ set_parameter k v m

-- ExtractStreamURL; its error carries nothing.
unfoldable pub extract_stream_url : List Verb → Option (Text × List (Text × Text))
unfolding is_empty
extract_stream_url [] = none
extract_stream_url (connect c ∷ vs) =
    let rest = extract_stream_url vs in
    elim c.stream [
      | none ↦ rest
      | some s ↦ if is_empty s.url then rest else some (s.url, s.parameters)
    ]
extract_stream_url (_ ∷ vs) = extract_stream_url vs
