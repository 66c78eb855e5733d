-- ===== src/Prelude/Text.antt =====
-- Texts as lists of code points, and what the code calls of `str`.
use Prim.Native.Nat.{ℕ, ◌+◌, ◌-◌, ◌*◌}
use Prim.Native.String.{String}
use Prim.Native.Char.{code}
use mathlib.Core.Path.{◌≡◌, refl}
use mathlib.Core.Logic.{◌↔◌}
use mathlib.Core.Bool.{Bool, true, false, ◌&&◌, ◌||◌}
use mathlib.Core.List.{List, [], ◌∷◌}
use mathlib.Core.Option.{Option, none, some}
use mathlib.Core.Option
use native.Mathlib.Omega.{arith}
use btwattch2_rs.Prelude.Tests.{ltb, leb, ◌==◌, if◌then◌else◌}

abbrev pub Text : Type 0
Text = List ℕ

abbrev pub codes : String → Text
codes String.[] = []
codes (String.◌∷◌ c s) = code c ∷ codes s

abbrev pub is_empty_text : Text → Bool
is_empty_text [] = true
is_empty_text (c ∷ cs) = false

abbrev pub eq_text : Text → Text → Bool
eq_text [] [] = true
eq_text [] (d ∷ ds) = false
eq_text (c ∷ cs) [] = false
eq_text (c ∷ cs) (d ∷ ds) = c == d && eq_text cs ds

pub eq_text_iff : (a b : Text) → (eq_text a b ≡ true) ↔ (a ≡ b)
eq_text_iff [] [] = ground arith
eq_text_iff [] (d ∷ ds) = ground arith
eq_text_iff (c ∷ cs) [] = ground arith
eq_text_iff (c ∷ cs) (d ∷ ds) = ground (arith, eq_text_iff cs ds)

-- `char::is_whitespace`.
abbrev pub is_whitespace : ℕ → Bool
is_whitespace c =
    (leb 0x09 c && leb c 0x0D)
    || c == 0x20
    || c == 0x85
    || c == 0xA0
    || c == 0x1680
    || (leb 0x2000 c && leb c 0x200A)
    || c == 0x2028
    || c == 0x2029
    || c == 0x202F
    || c == 0x205F
    || c == 0x3000

abbrev pub trim_start : Text → Text
trim_start [] = []
trim_start (c ∷ cs) = if is_whitespace c then trim_start cs else c ∷ cs

abbrev pub trim_end : Text → Text
trim_end [] = []
trim_end (c ∷ cs) =
    let rest = trim_end cs in if is_empty_text rest && is_whitespace c then [] else c ∷ rest

abbrev pub trim : Text → Text
trim s = trim_end (trim_start s)

abbrev pub strip_prefix : Text → Text → Option Text
strip_prefix [] s = some s
strip_prefix (p ∷ ps) [] = none
strip_prefix (p ∷ ps) (c ∷ cs) = let rest = strip_prefix ps cs in if p == c then rest else none

abbrev pub strip_suffix : Text → Text → Option Text
strip_suffix suffix [] = if eq_text [] suffix then some [] else none
strip_suffix suffix (c ∷ cs) =
    let rest = Option.map (λ s. c ∷ s) (strip_suffix suffix cs) in
    if eq_text (c ∷ cs) suffix then some [] else rest

abbrev pub starts_with : ℕ → Text → Bool
starts_with c [] = false
starts_with c (d ∷ ds) = d == c

-- `split_once`, at the first such code point.
abbrev pub split_once : ℕ → Text → Option (Text × Text)
split_once c [] = none
split_once c (d ∷ ds) =
    let rest = Option.map (λ (p : Text × Text). (d ∷ p.0, p.1)) (split_once c ds) in
    if d == c then some ([], ds) else rest

abbrev add_to_line : ℕ → List Text → List Text
add_to_line c [] = (c ∷ []) ∷ []
add_to_line c (l ∷ ls) = (c ∷ l) ∷ ls

-- `lines`: cut at each line feed, with a carriage return before it.
abbrev pub lines : Text → List Text
lines [] = []
lines (c ∷ cs) =
    let rest = lines cs in
    if c == b'\n'
    then [] ∷ rest
    else if c == b'\r' && starts_with b'\n' cs
    then rest
    else add_to_line c rest

-- The digits of a number, read from the left; `none` on another code point or an overflow.
abbrev pub digits_value : ℕ → ℕ → ℕ → Text → Option ℕ
digits_value radix limit value [] = some value
digits_value radix limit value (c ∷ cs) =
    let next = value * radix + (c - b'0') in
    let rest = digits_value radix limit next cs in
    if leb b'0' c && ltb (c - b'0') radix && ltb next limit then rest else none

abbrev pub unsigned : Text → Text
unsigned [] = []
unsigned (c ∷ cs) = if c == b'+' then cs else c ∷ cs

-- `from_str_radix` of an unsigned type whose values lie below `limit`, for a radix up to ten.
abbrev pub parse_radix : ℕ → ℕ → Text → Option ℕ
parse_radix radix limit s =
    let digits = unsigned s in
    if is_empty_text digits then none else digits_value radix limit 0 digits

test_lines : lines (codes "a\r\n\nbc") ≡ codes "a" ∷ [] ∷ codes "bc" ∷ []
test_lines = refl

test_trim : trim (codes "  a b\t") ≡ codes "a b"
test_trim = refl
