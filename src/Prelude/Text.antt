-- ===== src/Prelude/Text.antt =====
-- The functions of Go's package strings that the program scans text with, over the codes of an
-- ASCII text. A code above 127 has no lower case here and is no space.
use Prim.Native.Nat.{ℕ, ◌+◌, ◌-◌}
use Prim.Native.Char.{code}
use Prim.Native.String.{String}
use mathlib.Core.Path.{◌≡◌, refl}
use native.Mathlib.Omega.{arith}
use mathlib.Core.Logic.{◌↔◌}
use mathlib.Core.Bool.{Bool, true, false, ◌&&◌, ◌||◌}
use mathlib.Core.List.{List, [], ◌∷◌, ◌++◌, map, reverse}
use sipgate_sip_stream_bridg.Prelude.Tests.{leb, ◌==◌, if◌then◌else◌}

abbrev pub Text : Type 0
Text = List ℕ

abbrev pub codes : String → Text
codes String.[] = []
codes (String.◌∷◌ c s) = code c ∷ codes s

-- unicode.IsSpace on ASCII: tab, newline, vertical tab, form feed, return, space.
unfoldable pub is_space : ℕ → Bool
is_space c = (leb 9 c && leb c 13) || c == 32

unfoldable pub lower : ℕ → ℕ
lower c = if leb b'A' c && leb c b'Z' then c + 32 else c

-- `==` of Go on strings, over texts.
unfoldable pub same : Text → Text → Bool
same [] [] = true
same (c ∷ s) (d ∷ t) = c == d && same s t
same s t = false

unfoldable pub is_empty : Text → Bool
is_empty [] = true
is_empty (c ∷ s) = false

unfoldable pub to_lower : Text → Text
unfolding lower
to_lower = map lower

-- strings.ToUpper on ASCII.
abbrev pub upper : Text → Text
upper [] = []
upper (c ∷ s) = (if leb b'a' c && leb c b'z' then c - 32 else c) ∷ upper s

unfoldable pub trim_left : Text → Text
unfolding is_space
trim_left [] = []
trim_left (c ∷ s) = if is_space c then trim_left s else c ∷ s

unfoldable pub trim_space : Text → Text
unfolding trim_left
trim_space s = reverse (trim_left (reverse (trim_left s)))

unfoldable pub starts_with : Text → Text → Bool
starts_with [] s = true
starts_with (p ∷ ps) [] = false
starts_with (p ∷ ps) (c ∷ s) = p == c && starts_with ps s

-- `strings.TrimPrefix`, its own recursion: the rest after the prefix, or the whole text.
unfoldable pub strip : Text → Text → Text → Text
strip [] s whole = s
strip (p ∷ ps) [] whole = whole
strip (p ∷ ps) (c ∷ s) whole = if p == c then strip ps s whole else whole

unfoldable pub trim_prefix : Text → Text → Text
unfolding strip
trim_prefix p s = strip p s s

-- `strings.Map` with a function that drops the codes of a test.
unfoldable pub remove_if : (ℕ → Bool) → Text → Text
remove_if test [] = []
remove_if test (c ∷ s) = if test c then remove_if test s else c ∷ remove_if test s

-- `strings.FieldsFunc` with the field that is being read: the runs of codes that fail the test.
unfoldable pub fields_from : (ℕ → Bool) → Text → Text → List Text
unfolding is_empty
fields_from test field [] = if is_empty field then [] else field ∷ []
fields_from test field (c ∷ s) =
    let more = fields_from test [] s in
    let on = fields_from test (field ++ c ∷ []) s in
    if test c then (if is_empty field then more else field ∷ more) else on

unfoldable pub fields_func : (ℕ → Bool) → Text → List Text
unfolding fields_from
fields_func test s = fields_from test [] s

-- `strings.Contains(s, p)`, the text first.
unfoldable pub contains_text : Text → Text → Bool
unfolding starts_with
contains_text [] p = starts_with p []
contains_text (c ∷ s) p = starts_with p (c ∷ s) || contains_text s p

pub same_iff : (s t : Text) → (same s t ≡ true) ↔ (s ≡ t)
unfolding same
same_iff [] [] = ground arith
same_iff [] (d ∷ t) = ground arith
same_iff (c ∷ s) [] = ground arith
same_iff (c ∷ s) (d ∷ t) = ground (arith, same_iff s t)

pub starts_with-append : (p s : Text) → starts_with p (p ++ s) ≡ true
unfolding starts_with
starts_with-append [] s = refl
starts_with-append (c ∷ p) s = ground (arith, starts_with-append p s)
