-- ===== src/Api/Guard/Examples.antt =====
-- Tests of go/internal/api/server.go.
use sipgate_sip_stream_bridg.Prelude.{ℕ, ◌+◌, none, some, []}
use sipgate_sip_stream_bridg.Prelude.Int.{pos}
use sipgate_sip_stream_bridg.Api.Guard.{Request, Handler, Counted, mount}
use sipgate_sip_stream_bridg.Api.Guard.Mounted.{Guarded, mount-Guarded}

abbrev counter : Handler ℕ
counter r headers n = (n + 1, record { headers = headers; status = 200; error_code = none })

abbrev get_call : Request
get_call = record {
  method = "GET";
  content_length = pos 0;
  credentials = some ("AC1", "secret");
  path_sid = "AC1";
  body_limit = none;
}

abbrev idle : Counted ℕ
idle = record { inner = 0; requests = [] }

mount-Guarded_example :
    Guarded "AC1" "secret" "get_call" counter get_call [] idle
      (mount "AC1" "secret" "get_call" counter get_call [] idle)
mount-Guarded_example = mount-Guarded "AC1" "secret" "get_call" counter get_call [] idle
