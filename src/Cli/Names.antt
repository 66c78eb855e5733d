-- ===== src/Cli/Names.antt =====
-- src/cli.rs: the names of metrics, and the formats that can carry them.
pub mod Prometheus
use btwattch2_rs.Prelude.{
  ℕ, leb, ◌==◌, if◌then◌else◌, Bool, true, false, not, ◌&&◌, ◌||◌, List, [], ◌∷◌, Option, none,
  some, Result, ok, err,
}
use btwattch2_rs.Prelude.Text.{Text}

pub data OutputFormat : Type 0 where
  plain json csv ltsv prometheus mackerel : OutputFormat

abbrev pub is_ascii_digit : ℕ → Bool
is_ascii_digit c = leb b'0' c && leb c b'9'

abbrev pub is_ascii_alphanumeric : ℕ → Bool
is_ascii_alphanumeric c =
    (leb b'A' c && leb c b'Z') || (leb b'a' c && leb c b'z') || is_ascii_digit c

unfoldable pub prometheus_char : ℕ → Bool
prometheus_char c = is_ascii_alphanumeric c || c == b'_' || c == b':'

-- `chars().find(|&c| !prometheus_char(c))`.
find_bad : Text → Option ℕ
unfolding prometheus_char
find_bad [] = none
find_bad (c ∷ cs) = if prometheus_char c then find_bad cs else some c

-- The error is the character that the format cannot carry.
unfoldable pub validate_prefix : OutputFormat → Text → Result ℕ (Unit {0})
unfolding find_bad
validate_prefix prometheus prefix = elim (find_bad prefix) [ some bad ↦ err bad | none ↦ ok tt ]
validate_prefix _ prefix = ok tt

starts_name : Text → Bool
unfolding prometheus_char
starts_name [] = false
starts_name (c ∷ cs) = prometheus_char c && not (is_ascii_digit c)

continues_name : Text → Bool
unfolding prometheus_char
continues_name [] = true
continues_name (c ∷ cs) = (prometheus_char c || c == b'.' || c == b'-') && continues_name cs

abbrev tail : Text → Text
tail [] = []
tail (c ∷ cs) = cs

-- The error is the name.
unfoldable pub parse_metric_name : Text → Result Text Text
unfolding starts_name continues_name
parse_metric_name s = if not (starts_name s) || not (continues_name (tail s)) then err s else ok s
