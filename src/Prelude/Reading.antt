-- ===== src/Prelude/Reading.antt =====
-- Reading lines off a stream, as the standard library and tokio do, and the bytes of a text.
use Prim.Native.Nat.{ℕ, ◌+◌, ◌-◌, ◌*◌}
use mathlib.Core.Path.{◌≡◌, refl}
use mathlib.Core.Logic.{◌≢◌, inl, inr}
use mathlib.Core.Bool.{◌&&◌}
use mathlib.Core.List.{List, [], ◌∷◌, ◌++◌}
use mathlib.Core.Option.{Option, none, some}
use mathlib.Core.Option
use native.Mathlib.Omega.{arith}
use btwattch2_rs.Prelude.Tests.{ltb, leb, ◌==◌, if◌then◌else◌, Bool-cases}
use btwattch2_rs.Prelude.Lists.{All, Bytes}
use btwattch2_rs.Prelude.Text.{Text, is_empty_text, eq_text, is_whitespace, trim_end, trim}

with_char : ℕ → List Text → List Text
with_char c [] = (c ∷ []) ∷ []
with_char c (line ∷ lines) = (c ∷ line) ∷ lines

-- `next_line` takes off the line feed, and a carriage return before it.
unfoldable pub chomp : Text → Text
chomp [] = []
chomp (c ∷ cs) =
    let rest = chomp cs in
    if c == b'\n' && is_empty_text cs
    then []
    else if c == b'\r' && eq_text cs (b'\n' ∷ [])
    then []
    else c ∷ rest

-- What `read_line` gives, call after call, to the end: each line with its line feed, which the last
-- may lack.
unfoldable pub read_lines : Text → List Text
unfolding with_char
read_lines [] = []
read_lines (c ∷ cs) =
    let rest = read_lines cs in if c == b'\n' then (c ∷ []) ∷ rest else with_char c rest

-- The bytes that a code point begun by `lead` still needs, the range of the next of them, and what
-- `lead` says of the value; none for a byte that begins none.
record Awaited : Type 0 where
  count : ℕ
  low : ℕ
  high : ℕ
  value : ℕ

settled : Awaited
settled = record { count = 0; low = 0; high = 0; value = 0 }

begin_char : ℕ → Option Awaited
begin_char lead =
    if ltb lead 0x80
    then some (record { count = 0; low = 0; high = 0; value = lead })
    else if leb 0xC2 lead && leb lead 0xDF
    then some (record { count = 1; low = 0x80; high = 0xBF; value = lead - 0xC0 })
    else if leb 0xE0 lead && leb lead 0xEF
    then some (record {
      count = 2;
      low = if lead == 0xE0 then 0xA0 else 0x80;
      high = if lead == 0xED then 0x9F else 0xBF;
      value = lead - 0xE0;
    })
    else if leb 0xF0 lead && leb lead 0xF4
    then some (record {
      count = 3;
      low = if lead == 0xF0 then 0x90 else 0x80;
      high = if lead == 0xF4 then 0x8F else 0xBF;
      value = lead - 0xF0;
    })
    else none

continue_char : Awaited → ℕ → Option Awaited
continue_char w b =
    if leb w.low b && leb b w.high
    then some
        (record { count = w.count - 1; low = 0x80; high = 0xBF; value = w.value * 64 + (b - 0x80) })
    else none

next_byte : Awaited → ℕ → Option Awaited
unfolding begin_char continue_char
next_byte w b = if w.count == 0 then begin_char b else continue_char w b

put_char : Awaited → Option Text → Option Text
put_char w rest = if w.count == 0 then Option.map (λ s. w.value ∷ s) rest else rest

from_utf8_in : Awaited → Bytes → Option Text
unfolding next_byte put_char
from_utf8_in w [] = if w.count == 0 then some [] else none
from_utf8_in w (b ∷ bs) = elim (next_byte w b) [
  | none ↦ none
  | some v ↦ put_char v (from_utf8_in v bs)
]

-- `from_utf8`: none for bytes that are not the UTF-8 of a text.
unfoldable pub from_utf8 : Bytes → Option Text
unfolding from_utf8_in settled
from_utf8 = from_utf8_in settled

abbrev pub HasNoFeed : Text → Type 0
HasNoFeed = All (λ c. c ≢ b'\n')

-- Without a line feed and a carriage return.
abbrev pub IsLine : Text → Type 0
IsLine = All (λ c. (c ≢ b'\n') × (c ≢ b'\r'))

pub IsLine-HasNoFeed : (s : Text) → IsLine s → HasNoFeed s
IsLine-HasNoFeed [] h = tt
IsLine-HasNoFeed (c ∷ s) h = ((h.0).0, IsLine-HasNoFeed s (h.1))

pub IsLine-prefix : (s t : Text) → IsLine (s ++ t) → IsLine s
IsLine-prefix [] t h = tt
IsLine-prefix (c ∷ s) t h = (h.0, IsLine-prefix s t h.1)

pub read_lines-line :
    (s rest : Text)
    → HasNoFeed s
    → read_lines (s ++ (b'\n' ∷ rest)) ≡ (s ++ (b'\n' ∷ [])) ∷ read_lines rest
unfolding read_lines
read_lines-line [] rest h = refl
read_lines-line (c ∷ s) rest h = ground (arith, read_lines-line s rest (h.1))

pub read_lines-part : (c : ℕ) (s : Text) → HasNoFeed (c ∷ s) → read_lines (c ∷ s) ≡ (c ∷ s) ∷ []
unfolding read_lines
read_lines-part c [] h = ground arith
read_lines-part c (d ∷ s) h = ground (arith, read_lines-part d s (h.1))

pub chomp-line : (s : Text) → IsLine s → chomp (s ++ (b'\n' ∷ [])) ≡ s
unfolding chomp
chomp-line [] h = refl
chomp-line (c ∷ s) h = ground (arith, chomp-line s (h.1))

trim_end-feed : (s : Text) → trim_end (s ++ (b'\n' ∷ [])) ≡ trim_end s
trim_end-feed [] = refl
trim_end-feed (c ∷ s) = rw (trim_end-feed s) refl

pub trim-feed : (s : Text) → trim (s ++ (b'\n' ∷ [])) ≡ trim s
trim-feed [] = refl
trim-feed (c ∷ s) = elim (Bool-cases (is_whitespace c)) [
  | inl e ↦ rw e (trim-feed s)
  | inr e ↦ rw e (trim_end-feed (c ∷ s))
]

test_from_utf8 :
    from_utf8 (0x61 ∷ 0xC3 ∷ 0xA9 ∷ 0xF0 ∷ 0x9F ∷ 0x98 ∷ 0x80 ∷ [])
    ≡ some (0x61 ∷ 0xE9 ∷ 0x1F600 ∷ [])
unfolding from_utf8
test_from_utf8 = refl

test_not_utf8 : from_utf8 (0xED ∷ 0xA0 ∷ 0x80 ∷ []) ≡ none
unfolding from_utf8
test_not_utf8 = refl

test_cut_utf8 : from_utf8 (0x61 ∷ 0xC3 ∷ []) ≡ none
unfolding from_utf8
test_cut_utf8 = refl
