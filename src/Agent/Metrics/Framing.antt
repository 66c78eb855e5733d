-- ===== src/Agent/Metrics/Framing.antt =====
-- A client that reads a reply by its Content-Length, and what it gets.
use btwattch2_rs.Prelude.{
  ℕ, ◌+◌, ◌-◌, ◌<◌, ◌^◌, ◌≡◌, refl, sym, ap, ◌∙◌, arith, leb, ◌==◌, ◌&&◌, if◌then◌else◌, Bool, true,
  false, List, [], ◌∷◌, ◌++◌, append_assoc, append-nil, Option, none, some, and_then, All,
}
use btwattch2_rs.Prelude.Text.{Text, codes, is_empty_text, strip_prefix, parse_radix}
use btwattch2_rs.Prelude.Decimal.{decimal}
use btwattch2_rs.Prelude.Decimal.Parse.{IsDigit, decimal-IsDigit, parse_radix-decimal}
use btwattch2_rs.Chrono.{Chrono}
use btwattch2_rs.Float.{Float}
use btwattch2_rs.Agent.Metrics.{
  Route, metrics, index, not_found, method_not_allowed, utf8_size, utf8_len, response, answer,
  exposition, AgentReadings, exposition_type, text_type,
}

-- The header lines up to the blank one, and what follows it: `line` is the one being read, and
-- `cr` tells that a carriage return came last.
abbrev head : List Text → Text → Bool → Text → Option (List Text × Text)
head ls line cr [] = none
head ls line cr (c ∷ cs) =
    let fed = head (ls ++ line ∷ []) [] false cs in
    let returned = head ls line true cs in
    let more = head ls (line ++ c ∷ []) false cs in
    if cr && c == b'\n'
    then (if is_empty_text line then some (ls, cs) else fed)
    else if c == b'\r'
    then returned
    else more

abbrev length_field : Text
length_field = codes "Content-Length: "

abbrev content_length : List Text → Option ℕ
content_length [] = none
content_length (l ∷ ls) =
    let rest = content_length ls in
    elim (strip_prefix length_field l) [ some value ↦ parse_radix 10 (2 ^ 64) value | none ↦ rest ]

abbrev take_bytes : ℕ → Text → Text
take_bytes n [] = []
take_bytes n (c ∷ cs) =
    let rest = take_bytes (n - utf8_size c) cs in if leb (utf8_size c) n then c ∷ rest else []

-- The body that a client reads.
unfoldable pub read_reply : Text → Option Text
read_reply reply =
    and_then (head [] [] false reply)
      (λ h. and_then (content_length (h.0)) (λ n. some (take_bytes n (h.1))))

take_bytes-utf8_len : (body : Text) → take_bytes (utf8_len body) body ≡ body
take_bytes-utf8_len [] = refl
take_bytes-utf8_len (c ∷ cs) =
    let fits : leb (utf8_size c) (utf8_size c + utf8_len cs) ≡ true = fits_in (utf8_size c) in
    rw (take_bytes, fits)
      (ap (λ n. c ∷ take_bytes n cs) (left_over (utf8_size c))
        ∙ ap (◌∷◌ c) (take_bytes-utf8_len cs))
  where
    fits_in : (a : ℕ) → leb a (a + utf8_len cs) ≡ true
    fits_in a = ground arith

    left_over : (a : ℕ) → a + utf8_len cs - a ≡ utf8_len cs
    left_over a = omega arith

-- Digits are part of the line that is read.
head-digits :
    (ls : List Text) (line digits rest : Text)
    → All IsDigit digits
    → head ls line false (digits ++ rest) ≡ head ls (line ++ digits) false rest
head-digits ls line [] rest h = ap (λ l. head ls l false rest) (sym (append-nil line))
head-digits ls line (d ∷ ds) rest h =
    let other : (d == b'\r') ≡ false = ground (arith, h.0) in
    rw (head, other) (head-digits ls (line ++ d ∷ []) ds rest h.1)
    ∙ ap (λ l. head ls l false rest) (append_assoc line (d ∷ []) ds)

reassociate_digits :
    (digits c x e body : Text) → digits ++ c ++ x ++ e ++ body ≡ digits ++ (c ++ x ++ e ++ body)
reassociate_digits [] c x e body = refl
reassociate_digits (d ∷ ds) c x e body = ap (◌∷◌ d) (reassociate_digits ds c x e body)

reassociate :
    (a digits c x e body : Text)
    → a ++ digits ++ c ++ x ++ e ++ body ≡ a ++ (digits ++ (c ++ x ++ e ++ body))
reassociate [] digits c x e body = reassociate_digits digits c x e body
reassociate (b ∷ a) digits c x e body = ap (◌∷◌ b) (reassociate a digits c x e body)

abbrev closing : Text
closing = codes "\r\nConnection: close\r\n"

abbrev opening : Text → Text → Text
opening status content_type =
    codes "HTTP/1.1 "
    ++ status
    ++ codes "\r\nContent-Type: "
    ++ content_type
    ++ codes "\r\nContent-Length: "

-- A reply whose head is read line by line gives its body.
read-response :
    (status content_type extra body : Text) (before all : List Text)
    → utf8_len body < 2 ^ 64
    → ((rest : Text)
        → head [] [] false (opening status content_type ++ rest)
          ≡ head before length_field false rest)
    → head before
        (length_field ++ decimal (utf8_len body))
        false
        (closing ++ extra ++ codes "\r\n" ++ body)
      ≡ some (all, body)
    → content_length all ≡ parse_radix 10 (2 ^ 64) (decimal (utf8_len body))
    → read_reply (response status content_type extra body) ≡ some body
unfolding read_reply response
read-response status content_type extra body before all small begins ends found =
    let digits = decimal (utf8_len body) in
    let whole : head [] [] false (response status content_type extra body) ≡ some (all, body) =
      ap (head [] [] false)
        (reassociate (opening status content_type) digits closing extra (codes "\r\n") body)
      ∙ begins (digits ++ (closing ++ extra ++ codes "\r\n" ++ body))
      ∙ head-digits before length_field digits (closing ++ extra ++ codes "\r\n" ++ body)
          (decimal-IsDigit (utf8_len body))
      ∙ ends in
    let counted = found ∙ parse_radix-decimal (2 ^ 64) (utf8_len body) small in
    rw (read_reply, whole, counted) (ap some (take_bytes-utf8_len body))

abbrev first_lines : Text → Text → List Text
first_lines status content_type = status ∷ (codes "Content-Type: " ++ content_type) ∷ []

abbrev all_lines : Text → Text → List Text → Text → List Text
all_lines status content_type extra body =
    first_lines status content_type
    ++ (length_field ++ decimal (utf8_len body)) ∷ codes "Connection: close" ∷ extra

read-not_found : read_reply (response (codes "404 Not Found") text_type [] []) ≡ some []
read-not_found =
    read-response (codes "404 Not Found") text_type [] []
      (first_lines (codes "HTTP/1.1 404 Not Found") text_type)
      (all_lines (codes "HTTP/1.1 404 Not Found") text_type [] []) (omega arith) (λ rest. refl) refl
      refl

module _ (fl : Float) (c : Chrono) where
  -- What a client is to get.
  abbrev pub body_of : Option Route → ℕ → AgentReadings fl c → Text
  body_of (some metrics) now stats = exposition fl c now stats
  body_of (some index) now stats = codes "btwattch2 agent\nmetrics: /metrics\n"
  body_of _ now stats = []

  -- Every reply delimits its body: a client that takes as many bytes after the blank line as the
  -- header says gets the body, whatever route was asked for, if the body is shorter than 2^64 bytes.
  pub read-answer :
      (r : Option Route) (now : ℕ) (stats : AgentReadings fl c)
      → utf8_len (exposition fl c now stats) < 2 ^ 64
      → read_reply (answer fl c r now stats) ≡ some (body_of r now stats)
  unfolding answer
  read-answer (some metrics) now stats h =
      read-response (codes "200 OK") exposition_type [] (exposition fl c now stats)
        (first_lines (codes "HTTP/1.1 200 OK") exposition_type)
        (all_lines (codes "HTTP/1.1 200 OK") exposition_type [] (exposition fl c now stats)) h
        (λ rest. refl) refl refl
  read-answer (some index) now stats h =
      let body = codes "btwattch2 agent\nmetrics: /metrics\n" in
      read-response (codes "200 OK") text_type [] body
        (first_lines (codes "HTTP/1.1 200 OK") text_type)
        (all_lines (codes "HTTP/1.1 200 OK") text_type [] body) (omega arith) (λ rest. refl) refl
        refl
  read-answer (some method_not_allowed) now stats h =
      let status = codes "HTTP/1.1 405 Method Not Allowed" in
      read-response (codes "405 Method Not Allowed") text_type (codes "Allow: GET\r\n") []
        (first_lines status text_type) (all_lines status text_type (codes "Allow: GET" ∷ []) [])
        (omega arith) (λ rest. refl) refl refl
  read-answer (some not_found) now stats h = read-not_found
  read-answer none now stats h = read-not_found
