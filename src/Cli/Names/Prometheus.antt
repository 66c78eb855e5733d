-- ===== src/Cli/Names/Prometheus.antt =====
-- Which metric names are accepted.
use btwattch2_rs.Prelude.{
  ℕ, ◌≤◌, ◌≡◌, ◌↔◌, ◌⊎◌, refl, arith, true, not, ◌&&◌, [], ◌∷◌, none, ok, All,
}
use btwattch2_rs.Prelude.Text.{Text}
use btwattch2_rs.Cli.Names.{
  prometheus, is_ascii_digit, prometheus_char, find_bad, validate_prefix, starts_name,
  continues_name, parse_metric_name,
}

-- [A-Za-z_:]
abbrev pub IsNameStart : ℕ → Type 0
IsNameStart c = ((65 ≤ c) × (c ≤ 90)) ⊎ (((97 ≤ c) × (c ≤ 122)) ⊎ ((c ≡ 95) ⊎ (c ≡ 58)))

-- [A-Za-z0-9_:]
abbrev pub IsNameChar : ℕ → Type 0
IsNameChar c = IsNameStart c ⊎ ((48 ≤ c) × (c ≤ 57))

-- [A-Za-z_:][A-Za-z0-9_:]*
abbrev pub IsPrometheusName : Text → Type 0
IsPrometheusName [] = ⊥
IsPrometheusName (c ∷ cs) = IsNameStart c × All IsNameChar cs

prometheus_char_iff : (c : ℕ) → (prometheus_char c ≡ true) ↔ IsNameChar c
unfolding prometheus_char
prometheus_char_iff c = ground arith

starts_iff : (c : ℕ) → ((prometheus_char c && not (is_ascii_digit c)) ≡ true) ↔ IsNameStart c
unfolding prometheus_char
starts_iff c = ground arith

find_bad_iff : (s : Text) → (find_bad s ≡ none) ↔ All IsNameChar s
unfolding find_bad
find_bad_iff [] = ground arith
find_bad_iff (c ∷ cs) = ground (arith, find_bad_iff cs, prometheus_char_iff c)

continues_name-All : (s : Text) → All IsNameChar s → continues_name s ≡ true
unfolding continues_name
continues_name-All [] h = refl
continues_name-All (c ∷ cs) h =
    let k = (prometheus_char_iff c).1 h.0 in ground (arith, k, continues_name-All cs h.1)

-- The names that `--metric-name` takes and the Prometheus format then lets through are exactly
-- those of the Prometheus grammar.
pub prometheus_names :
    (s : Text)
    → ((parse_metric_name s ≡ ok s) × (validate_prefix prometheus s ≡ ok tt)) ↔ IsPrometheusName s
unfolding parse_metric_name validate_prefix starts_name
prometheus_names [] = ground arith
prometheus_names (c ∷ cs) = ground (
  arith,
  starts_iff c,
  prometheus_char_iff c,
  find_bad_iff (c ∷ cs),
  find_bad_iff cs,
  continues_name-All cs,
)
