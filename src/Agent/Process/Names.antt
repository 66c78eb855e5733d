-- ===== src/Agent/Process/Names.antt =====
-- src/agent/server.rs, `run`: the channels of a serving agent, no two of which are one.
use btwattch2_rs.Prelude.{
  ℕ, ◌+◌, ◌<◌, ◌≡◌, refl, ◌∙◌, ap, arith, ◌==◌, ==_iff, true, false, ◌||◌, Bool-cases, inl, inr,
  List, [], ◌∷◌, ◌++◌, map,
}
use btwattch2_rs.Agent.Protocol.{Request}
use btwattch2_rs.Agent.Clients.Delivery.{mem, Distinct}
use btwattch2_rs.Agent.Clients.Senders.{Narrows, mem-snoc, snoc-Distinct}
use btwattch2_rs.Agent.Process.{Pending, is_pending}

-- The channels of the subscribers and of the requests: all older than the next, none twice.
pub record Fresh (list : List ℕ) (pending : Pending) (next : ℕ) : Type 0 where
  pub listed : Distinct list
  pub waiting : Distinct (map (λ x. x.1) pending)
  pub listed_before : (k : ℕ) → mem k list ≡ true → k < next
  pub waiting_before : (k : ℕ) → is_pending k pending ≡ true → k < next
  pub apart : (k : ℕ) → mem k list ≡ true → is_pending k pending ≡ false

mem-is_pending : (k : ℕ) (p : Pending) → mem k (map (λ x. x.1) p) ≡ is_pending k p
mem-is_pending k [] = refl
mem-is_pending k ((r, tx) ∷ p) = ground (arith, mem-is_pending k p)

names-snoc :
    (p : Pending) (r : Request) (tx : ℕ)
    → map (λ x. x.1) (p ++ (r, tx) ∷ []) ≡ map (λ x. x.1) p ++ tx ∷ []
names-snoc [] r tx = refl
names-snoc (q ∷ p) r tx = ap (◌∷◌ q.1) (names-snoc p r tx)

pub is_pending-snoc :
    (k : ℕ) (p : Pending) (r : Request) (tx : ℕ)
    → is_pending k (p ++ (r, tx) ∷ []) ≡ (is_pending k p || (k == tx))
is_pending-snoc k [] r tx = ground arith
is_pending-snoc k ((q, t) ∷ p) r tx = ground (arith, is_pending-snoc k p r tx)

pub Fresh-narrowed :
    (before after : List ℕ) (p : Pending) (n : ℕ)
    → Narrows before after
    → Fresh before p n
    → Fresh after p n
Fresh-narrowed before after p n w h = record {
  listed = w.distinct;
  waiting = h.waiting;
  listed_before = λ k m. h.listed_before k (w.still k m);
  waiting_before = h.waiting_before;
  apart = λ k m. h.apart k (w.still k m);
}

-- The first request is taken.
pub Fresh-taken :
    (list : List ℕ) (r : Request) (tx : ℕ) (p : Pending) (n : ℕ)
    → Fresh list ((r, tx) ∷ p) n
    → Fresh list p n
Fresh-taken list r tx p n h = record {
  listed = h.listed;
  waiting = h.waiting.1;
  listed_before = h.listed_before;
  waiting_before = λ k m. h.waiting_before k (ground arith);
  apart = λ k m. ground (arith, h.apart k m);
}

-- Its client is not subscribed.
first-unlisted :
    (list : List ℕ) (r : Request) (tx : ℕ) (p : Pending) (n : ℕ)
    → Fresh list ((r, tx) ∷ p) n
    → mem tx list ≡ false
first-unlisted list r tx p n h = elim (Bool-cases (mem tx list)) [
  | inl e ↦ absurd (ground (arith, h.apart tx e, ==_iff tx tx))
  | inr e ↦ e
]

-- It subscribes.
pub Fresh-added :
    (list : List ℕ) (r : Request) (tx : ℕ) (p : Pending) (n : ℕ)
    → Fresh list ((r, tx) ∷ p) n
    → Fresh (list ++ tx ∷ []) p n
Fresh-added list r tx p n h =
    let rest = Fresh-taken list r tx p n h in
    record {
      listed = snoc-Distinct tx list (first-unlisted list r tx p n h) (h.listed);
      waiting = h.waiting.1;
      listed_before = λ k m. elim (Bool-cases (k == tx)) [
        | inl e ↦ h.waiting_before k (ground arith)
        | inr e ↦ h.listed_before k (ground (arith, mem-snoc k tx list))
      ];
      waiting_before = rest.waiting_before;
      apart = λ k m. elim (Bool-cases (k == tx)) [
        | inl e ↦ ground (arith, (==_iff k tx).0 e, h.waiting.0, mem-is_pending tx p)
        | inr e ↦ rest.apart k (ground (arith, mem-snoc k tx list))
      ];
    }

-- A request is passed on.
pub Fresh-passed :
    (list : List ℕ) (r : Request) (p : Pending) (n : ℕ)
    → Fresh list p n
    → Fresh list (p ++ (r, n) ∷ []) (n + 1)
Fresh-passed list r p n h = record {
  listed = h.listed;
  waiting = rw (names-snoc p r n) (snoc-Distinct n _ (mem-is_pending n p ∙ new) (h.waiting));
  listed_before = λ k m. omega (arith, h.listed_before k m);
  waiting_before = λ k m. elim (Bool-cases (is_pending k p)) [
    | inl e ↦ omega (arith, h.waiting_before k e)
    | inr e ↦ ground (arith, is_pending-snoc k p r n, ==_iff k n)
  ];
  apart =
      λ k m. ground (arith, is_pending-snoc k p r n, h.apart k m, h.listed_before k m, ==_iff k n);
}
  where
    new : is_pending n p ≡ false
    new = elim (Bool-cases (is_pending n p)) [
      | inl e ↦ absurd (omega (arith, h.waiting_before n e))
      | inr e ↦ e
    ]

-- Nothing waits any more.
pub Fresh-emptied : (list : List ℕ) (p : Pending) (n : ℕ) → Fresh list p n → Fresh list [] n
Fresh-emptied list p n h = record {
  listed = h.listed;
  waiting = tt;
  listed_before = h.listed_before;
  waiting_before = λ k m. absurd (cc);
  apart = λ k m. refl;
}
