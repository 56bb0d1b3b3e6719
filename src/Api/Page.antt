-- ===== src/Api/Page.antt =====
-- go/internal/api/json.go, SerializePage, and listCallsHandler of calls.go: the pages of a list of
-- calls. Products and sums wrap around in 64 bits; a slice out of bounds panics, which is `none`. A
-- URI is kept as the number of the page that it names.
pub mod Covered
use sipgate_sip_stream_bridg.Prelude.{
  ℕ, zero, suc, ◌+◌, ◌-◌, ◌*◌, ◌%◌, ◌^◌, ◌≤◌, ◌<◌, Bool, true, false, Option, none, some, List, [],
  ◌∷◌, ltb, leb, if◌then◌else◌, length, take, drop, map,
}
use sipgate_sip_stream_bridg.Prelude.Text.{Text, is_empty}
use sipgate_sip_stream_bridg.Prelude.Int.{ℤ, pos, negsuc, atoi, is_negative}
use sipgate_sip_stream_bridg.Bridge.Manager.{BridgeCall, CallManager, list_calls}

pub record Page {ℓ} (A : Type ℓ) : Type ℓ where
  pub page : ℕ
  pub page_size : ℕ
  pub start : ℕ
  pub end : ℕ
  pub next_page : Option ℕ
  pub previous_page : Option ℕ
  pub calls : List A

unfoldable pub clamp_size : ℤ → ℕ
clamp_size (negsuc n) = 50
clamp_size (pos n) = if ltb n 1 then 50 else if ltb 1000 n then 1000 else n

unfoldable pub clamp_page : ℤ → ℕ
clamp_page (negsuc n) = 0
clamp_page (pos n) = n

-- `if x > total { x = total }` on the 64 bits of x; `none` stays below 0.
unfoldable pub clip : ℕ → ℕ → Option ℕ
unfolding is_negative
clip total x = if is_negative x then none else some (if ltb total x then total else x)

-- items[start:end]
unfoldable pub slice {ℓ} : {A : Type ℓ} → List A → Option ℕ → Option ℕ → Option (ℕ × (ℕ × List A))
slice items none end = none
slice items (some start) none = none
slice items (some start) (some end) =
    if leb start end then some (start, (end, take (end - start) (drop start items))) else none

abbrev pub previous : ℕ → Option ℕ
previous zero = none
previous (suc n) = some n

-- The envelope of the sliced calls.
unfoldable pub envelope {ℓ κ} :
    {A : Type ℓ} {B : Type κ} → (A → B) → ℕ → ℕ → ℕ → Option (ℕ × (ℕ × List A)) → Option (Page B)
envelope show page size total none = none
envelope show page size total (some (start, (end, calls))) = some (record {
  page = page;
  page_size = size;
  start = start;
  end = end;
  next_page = if ltb end total then some (suc page) else none;
  previous_page = previous page;
  calls = map show calls;
})

unfoldable pub serialize_page {ℓ κ} :
    {A : Type ℓ} {B : Type κ} → (A → B) → List A → ℤ → ℤ → Option (Page B)
unfolding clamp_size clamp_page clip slice envelope
serialize_page show items page page_size =
    let size = clamp_size page_size in
    let p = clamp_page page in
    let start = p * size % 2 ^ 64 in
    envelope show p size (length items)
      (slice items (clip (length items) start) (clip (length items) ((start + size) % 2 ^ 64)))

unfoldable pub parse_int_default : Text → ℤ → ℤ
unfolding is_empty atoi
parse_int_default s default =
    if is_empty s then default else elim (atoi s) [ some n ↦ n | none ↦ default ]

-- listCallsHandler: the page of the calls, from the query's Page and PageSize.
unfoldable pub list_calls_handler {κ} :
    {B : Type κ} → (BridgeCall → B) → Text → Text → CallManager → Option (Page B)
unfolding serialize_page parse_int_default list_calls
list_calls_handler show page page_size m =
    serialize_page show (list_calls m) (parse_int_default page (pos 0))
      (parse_int_default page_size (pos 50))
