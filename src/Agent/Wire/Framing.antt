-- ===== src/Agent/Wire/Framing.antt =====
-- What the messages written on a connection are read as.
use btwattch2_rs.Prelude.{
  ℕ, ◌≡◌, ◌≢◌, ◌⊎◌, refl, sym, ap, ◌∙◌, subst, arith, inl, inr, All, length, length-append, List,
  [], ◌∷◌, ◌++◌, map, append_assoc, append-nil, Option, none, some,
}
use btwattch2_rs.Prelude.Text.{Text, trim}
use btwattch2_rs.Prelude.Reading.{
  IsLine, IsLine-HasNoFeed, IsLine-prefix, read_lines-line, read_lines-part, chomp-line, trim-feed,
}
use btwattch2_rs.Agent.Wire.{first_line, next_line, write_message, written, received}

-- Two ways to cut one text.
split-append :
    (a b c d : Text) (x : ℕ)
    → a ++ b ≡ c ++ (x ∷ d)
    → ((q : Text) × (c ≡ a ++ q)) ⊎ ((a' : Text) × (a ≡ c ++ (x ∷ a')) × (a' ++ b ≡ d))
split-append [] b c d x e = inl (c, refl)
split-append (k ∷ a) b [] d x e = inr (a, cc, cc)
split-append (k ∷ a) b (j ∷ c) d x e = both (cc) (split-append a b c d x (cc))
  where
    both :
        k ≡ j
        → ((q : Text) × (c ≡ a ++ q)) ⊎ ((a' : Text) × (a ≡ c ++ (x ∷ a')) × (a' ++ b ≡ d))
        → ((q : Text) × ((j ∷ c) ≡ (k ∷ a) ++ q))
          ⊎ ((a' : Text) × ((k ∷ a) ≡ (j ∷ c) ++ (x ∷ a')) × (a' ++ b ≡ d))
    both same (inl (q, h)) = inl (q, cc)
    both same (inr (a', h, rest)) = inr (a', cc, rest)

module _ {A B : Type 0} (encode : A → Text) (decode : Text → Option B) (reread : A → B) where
  -- What the encoder and the parser of the JSON are relied on for: a message is one line, its text
  -- is read as what `reread` says, and no part of it that lacks its end parses.
  pub record IsReadAs (m : A) : Type 0 where
    pub is_line : IsLine (encode m)
    pub whole : decode (trim (encode m)) ≡ some (reread m)
    pub part : (p q : Text) → encode m ≡ p ++ q → q ≢ [] → decode (trim p) ≡ none

  written-nil : written encode [] ≡ []
  unfolding written
  written-nil = refl

  written-suc :
      (m : A) (ms : List A) → written encode (m ∷ ms) ≡ encode m ++ (b'\n' ∷ written encode ms)
  unfolding written
  written-suc m ms = append_assoc (encode m) (b'\n' ∷ []) (written encode ms)

  received-line :
      (m : A) (rest : Text)
      → IsReadAs m
      → received decode (encode m ++ (b'\n' ∷ rest)) ≡ some (reread m) ∷ received decode rest
  unfolding received
  received-line m rest ok =
      rw
        (
          read_lines-line (encode m) rest (IsLine-HasNoFeed (encode m) (ok.is_line)),
          trim-feed (encode m),
          ok.whole,
        )
        refl

  received-part :
      (c : ℕ) (s : Text) → IsLine (c ∷ s) → received decode (c ∷ s) ≡ decode (trim (c ∷ s)) ∷ []
  unfolding received
  received-part c s h = rw (read_lines-part c s (IsLine-HasNoFeed (c ∷ s) h)) refl

  received-nil : received decode [] ≡ []
  unfolding received
  received-nil = refl

  -- What a reader has of the messages: the first ones whole, and of the next perhaps a part, which
  -- does not parse.
  abbrev pub ReadsAs : List A → Text → Text → Type 0
  ReadsAs ms bytes lost =
      (seen : List A) × (unseen : List A) × (tail : List (Option B)) × (ms ≡ seen ++ unseen)
      × (received decode bytes ≡ map (λ m. some (reread m)) seen ++ tail)
      × ((tail ≡ []) ⊎ (tail ≡ none ∷ []))
      × (lost ≡ [] → (unseen ≡ []) × (tail ≡ []))

  -- The connection broke within the text of a message.
  broken :
      (m : A) (ms : List A) (bytes lost q : Text)
      → IsReadAs m
      → encode m ≡ bytes ++ q
      → lost ≢ []
      → ReadsAs (m ∷ ms) bytes lost
  broken m ms [] lost q ok e some_lost =
      ([], m ∷ ms, [], refl, received-nil, inl refl, λ h. absurd (some_lost h))
  broken m ms (c ∷ s) lost [] ok e some_lost =
      let text : encode m ≡ c ∷ s = e ∙ append-nil (c ∷ s) in
      (
        m ∷ [],
        ms,
        [],
        refl,
        received-part c s (subst IsLine text (ok.is_line))
            ∙ ap (λ o. o ∷ []) (sym (ap (λ x. decode (trim x)) text) ∙ ok.whole),
        inl refl,
        λ h. absurd (some_lost h),
      )
  broken m ms (c ∷ s) lost (d ∷ q) ok e some_lost = (
    [],
    m ∷ ms,
    none ∷ [],
    refl,
    received-part c s (IsLine-prefix (c ∷ s) (d ∷ q) (subst IsLine e (ok.is_line)))
        ∙ ap (λ o. o ∷ []) (ok.part (c ∷ s) (d ∷ q) e λ h. cc),
    inr refl,
    λ h. absurd (some_lost h),
  )

  pub received-reread :
      (ms : List A) (bytes lost : Text)
      → All IsReadAs ms
      → bytes ++ lost ≡ written encode ms
      → ReadsAs ms bytes lost
  received-reread [] [] lost ok e = ([], [], [], refl, received-nil, inl refl, λ h. (refl, refl))
  received-reread [] (c ∷ bytes) lost ok e =
      absurd (let h : c ∷ (bytes ++ lost) ≡ [] = e ∙ written-nil in cc)
  received-reread (m ∷ ms) bytes lost ok e =
      cases (split-append bytes lost (encode m) (written encode ms) b'\n' (e ∙ written-suc m ms))
        (received-reread ms)
    where
      not_all : (q : Text) → encode m ≡ bytes ++ q → lost ≢ []
      not_all q h gone = absurd (
          omega (
            arith,
            ap length (e ∙ written-suc m ms),
            ap length h,
            ap length gone,
            length-append bytes lost,
            length-append bytes q,
            length-append (encode m) (b'\n' ∷ written encode ms),
          ))

      cases :
          ((q : Text) × (encode m ≡ bytes ++ q))
            ⊎ ((a' : Text) × (bytes ≡ encode m ++ (b'\n' ∷ a')) × (a' ++ lost ≡ written encode ms))
          → ((bytes lost : Text)
              → All IsReadAs ms
              → bytes ++ lost ≡ written encode ms
              → ReadsAs ms bytes lost)
          → ReadsAs (m ∷ ms) bytes lost
      cases (inl (q, h)) again = broken m ms bytes lost q (ok.0) h (not_all q h)
      cases (inr (rest, h, left)) again =
          let (seen, unseen, tail, parts, got, end, all) = again rest lost (ok.1) left in
          (
            m ∷ seen,
            unseen,
            tail,
            ap (◌∷◌ m) parts,
            ap (received decode) h ∙ received-line m rest (ok.0) ∙ ap (◌∷◌ (some (reread m))) got,
            end,
            all,
          )

module _ {A : Type 0} (encode : A → Text) (decode : Text → Option A) where
  -- The text of a message reads back as the message.
  abbrev pub IsEncoded : A → Type 0
  IsEncoded m = IsReadAs encode decode (λ m. m) m

  -- What a reader has of the messages: the first ones whole, and of the next perhaps a part, which
  -- does not parse.
  abbrev pub Reads : List A → Text → Text → Type 0
  Reads ms bytes lost =
      (seen : List A) × (unseen : List A) × (tail : List (Option A)) × (ms ≡ seen ++ unseen)
      × (received decode bytes ≡ map some seen ++ tail)
      × ((tail ≡ []) ⊎ (tail ≡ none ∷ []))
      × (lost ≡ [] → (unseen ≡ []) × (tail ≡ []))

  -- However much of what was written arrives: its reader gets the first messages, whole and in
  -- order, and then at most one line that does not parse; and all of them, if nothing is lost.
  -- Each message is to be one line, read back from its text and from no part of it.
  pub received-written :
      (ms : List A) (bytes lost : Text)
      → All IsEncoded ms
      → bytes ++ lost ≡ written encode ms
      → Reads ms bytes lost
  received-written ms bytes lost encoded e =
      received-reread encode decode (λ m. m) ms bytes lost encoded e

-- The handler reads the request that was written, whatever follows it.
pub next_line-written :
    {A : Type 0} (encode : A → Text) (m : A) (rest : Text)
    → IsLine (encode m)
    → next_line (write_message encode m ++ rest) ≡ some (encode m)
unfolding next_line write_message
next_line-written encode m rest h =
    ap next_line (append_assoc (encode m) (b'\n' ∷ []) rest)
    ∙ ap first_line (read_lines-line (encode m) rest (IsLine-HasNoFeed (encode m) h))
    ∙ ap some (chomp-line (encode m) h)
