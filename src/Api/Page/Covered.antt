-- ===== src/Api/Page/Covered.antt =====
-- go/internal/api/json.go: the pages of a list are the list, cut into pieces of one size.
use sipgate_sip_stream_bridg.Prelude.{
  ℕ, zero, suc, ◌+◌, ◌-◌, ◌*◌, ◌%◌, ◌^◌, ◌≤◌, ◌<◌, ◌≡◌, refl, ap, ◌∙◌, true, some, List, [], ◌∷◌,
  ◌++◌, arith, ltb, ◌==◌, ◌⊎◌, none, sym, map, leb, if◌then◌else◌, length, take, drop,
}
use sipgate_sip_stream_bridg.Prelude.Int.{ℤ, pos, negsuc, is_negative}
use sipgate_sip_stream_bridg.Api.Page.{
  clamp_size, clamp_page, clip, slice, envelope, previous, serialize_page,
}

abbrev pub least : ℕ → ℕ → ℕ
least a b = if ltb a b then a else b

-- The page number `p` of `items` in pieces of `size`.
abbrev pub piece {ℓ} : {A : Type ℓ} → ℕ → List A → ℕ → List A
piece size items p =
    let start = least (length items) (p * size) in
    let end = least (length items) (p * size + size) in take (end - start) (drop start items)

clip_small : (total x : ℕ) → x < 2 ^ 63 → clip total x ≡ some (least total x)
unfolding clip is_negative
clip_small total x h = ground arith

clamp_size-range : (n : ℤ) → (0 < clamp_size n) × (clamp_size n ≤ 1000)
unfolding clamp_size
clamp_size-range (pos n) = ground arith
clamp_size-range (negsuc n) = ground arith

slice_piece {ℓ} :
    {A : Type ℓ} (items : List A) (x size : ℕ)
    → x + size < 2 ^ 63
    → slice items
        (clip (length items) (x % 2 ^ 64))
        (clip (length items) ((x % 2 ^ 64 + size) % 2 ^ 64))
      ≡ some (
        least (length items) x,
        (
          least (length items) (x + size),
          take
              (least (length items) (x + size) - least (length items) x)
              (drop (least (length items) x) items),
        ),
      )
unfolding slice
slice_piece items x size h =
    let start : x % 2 ^ 64 ≡ x = omega arith in
    let end : (x + size) % 2 ^ 64 ≡ x + size = omega arith in
    let ordered : leb (least (length items) x) (least (length items) (x + size)) ≡ true =
      ground arith in
    rw (
      start,
      end,
      clip_small (length items) x (omega arith),
      clip_small (length items) (x + size) h,
      ordered,
    )

serialize_page-envelope {ℓ κ} :
    {A : Type ℓ} {B : Type κ} (show : A → B) (items : List A) (page size : ℤ)
    → clamp_page page * clamp_size size + clamp_size size < 2 ^ 63
    → serialize_page show items page size
      ≡ envelope show (clamp_page page) (clamp_size size) (length items) (
          some (
            least (length items) (clamp_page page * clamp_size size),
            (
              least (length items) (clamp_page page * clamp_size size + clamp_size size),
              piece (clamp_size size) items (clamp_page page),
            ),
          ))
unfolding serialize_page
serialize_page-envelope show items page size h =
    ap (envelope show (clamp_page page) (clamp_size size) (length items))
      (slice_piece items (clamp_page page * clamp_size size) (clamp_size size) h)

-- A negative page counts as 0.
abbrev pub IsPageNumber : ℤ → ℕ → Type 0
IsPageNumber (pos k) p = p ≡ k
IsPageNumber (negsuc k) p = p ≡ 0

-- A size below 1 counts as 50, and one above 1000 as 1000.
abbrev pub IsPageSize : ℤ → ℕ → Type 0
IsPageSize (pos k) n =
    ((k ≡ 0) × (n ≡ 50)) ⊎ ((1 ≤ k) × (k ≤ 1000) × (n ≡ k)) ⊎ ((1000 < k) × (n ≡ 1000))
IsPageSize (negsuc k) n = n ≡ 50

clamp_page_lem : (z : ℤ) (p : ℕ) → IsPageNumber z p → clamp_page z ≡ p
unfolding clamp_page
clamp_page_lem (pos k) p h = sym h
clamp_page_lem (negsuc k) p h = sym h

clamp_size_lem : (z : ℤ) (n : ℕ) → IsPageSize z n → clamp_size z ≡ n
unfolding clamp_size
clamp_size_lem (pos k) n h = ground arith
clamp_size_lem (negsuc k) n h = sym h

next_lem :
    (total e p : ℕ)
    → (if ltb (least total e) total then some (suc p) else none)
      ≡ (if ltb e total then some (p + 1) else none)
next_lem total e p = ground arith

previous_lem : (p : ℕ) → previous p ≡ (if p == 0 then none else some (p - 1))
previous_lem zero = refl
previous_lem (suc p) = ground arith

envelope_lem {ℓ κ} :
    {A : Type ℓ} {B : Type κ} (show : A → B) (items : List A) (p n : ℕ)
    → envelope show p n
        (length items)
        (some (least (length items) (p * n), (least (length items) (p * n + n), piece n items p)))
      ≡ some (record {
        page = p;
        page_size = n;
        start = least (length items) (p * n);
        end = least (length items) (p * n + n);
        next_page = if ltb (p * n + n) (length items) then some (p + 1) else none;
        previous_page = if p == 0 then none else some (p - 1);
        calls = map show (piece n items p);
      })
unfolding envelope
envelope_lem show items p n = rw (next_lem (length items) (p * n + n) p, previous_lem p) refl

-- A page whose end is below 2^63 never panics. A negative page is 0, and a size below 1 is 50 and one
-- above 1000 is 1000; the calls are those of this piece of the list, from `start` to `end`, both cut at
-- the length of the list. There is a next page exactly if calls follow, and a previous one unless it is
-- page 0.
pub serialize_page_lem {ℓ κ} :
    {A : Type ℓ} {B : Type κ} (show : A → B) (items : List A) (page size : ℤ) (p n : ℕ)
    → IsPageNumber page p
    → IsPageSize size n
    → p * n + n < 2 ^ 63
    → serialize_page show items page size
      ≡ some (record {
        page = p;
        page_size = n;
        start = least (length items) (p * n);
        end = least (length items) (p * n + n);
        next_page = if ltb (p * n + n) (length items) then some (p + 1) else none;
        previous_page = if p == 0 then none else some (p - 1);
        calls = map show (piece n items p);
      })
serialize_page_lem show items page size p n is_p is_n h =
    let same_p = clamp_page_lem page p is_p in
    let same_n = clamp_size_lem size n is_n in
    serialize_page-envelope show items page size (rw (same_p, same_n) h)
    ∙ rw (same_p, same_n) (envelope_lem show items p n)

take-nil {ℓ} : {A : Type ℓ} (n : ℕ) → take {A = A} n [] ≡ []
take-nil zero = refl
take-nil (suc n) = refl

take-drop-append {ℓ} :
    {A : Type ℓ} (a b : ℕ) (xs : List A) → a ≤ b → take a xs ++ take (b - a) (drop a xs) ≡ take b xs
take-drop-append zero b xs h = let e : b - 0 ≡ b = omega arith in rw e
take-drop-append (suc a) zero xs h = absurd (omega arith)
take-drop-append (suc a) (suc b) [] h = take-nil (suc b - suc a)
take-drop-append (suc a) (suc b) (x ∷ xs) h =
    let e : suc b - suc a ≡ b - a = omega arith in
    rw e (ap (◌∷◌ x) (take-drop-append a b xs (omega arith)))

-- The first `n` pages, one after another.
pub first_pieces {ℓ} : {A : Type ℓ} → ℕ → List A → ℕ → List A
first_pieces size items zero = []
first_pieces size items (suc n) = first_pieces size items n ++ piece size items n

-- The pages, one after another, are the list: none of its calls is left out or shown twice.
pub first_pieces_lem {ℓ} :
    {A : Type ℓ} (size : ℕ) (items : List A) (n : ℕ)
    → first_pieces size items n ≡ take (least (length items) (n * size)) items
unfolding first_pieces
first_pieces_lem size items zero =
    let start : least (length items) (0 * size) ≡ 0 = ground arith in rw start
first_pieces_lem size items (suc n) =
    let start = least (length items) (n * size) in
    let end = least (length items) (n * size + size) in
    rw (first_pieces_lem size items n) (
      take-drop-append start end items (ground arith)
      ∙ ap (λ k. take (least (length items) k) items) (omega arith))
