-- ===== src/Api/RateLimit/Window.antt =====
-- The sliding window of market-simulator/internal/api/middleware.go over any sequence of calls.
use agentic_sim_trading.Common.{
  ℕ, ◌+◌, ◌≤◌, ◌<◌, ◌≡◌, refl, ap, ◌∙◌, ◌↔◌, inl, inr, Bool, true, false, List, [], ◌∷◌, ◌++◌,
  arith, leb, Bool-cases, length, select,
}
use agentic_sim_trading.Common.Counting.{count}
use agentic_sim_trading.Common.Text.{Text, text_eq, text_eq_refl}
use agentic_sim_trading.Common.Assoc.{lookup_or, assign}
use agentic_sim_trading.Api.RateLimit.{SlidingLimiter, after_cutoff, allow}

-- The calls of one key, the last one last, with the times of those that were allowed, the latest first. Time does not go
-- back.
pub data Calls (l : SlidingLimiter) (key : Text)
    : (last : ℕ) → SlidingLimiter → List ℕ → Type 0 where
  no_call : Calls l key 0 l []
  allowed :
      {last : ℕ} {l' : SlidingLimiter} {times : List ℕ} (now : ℕ)
      → Calls l key last l' times
      → last ≤ now
      → (allow now key l').0 ≡ true
      → Calls l key now (allow now key l').1 (now ∷ times)
  refused :
      {last : ℕ} {l' : SlidingLimiter} {times : List ℕ} (now : ℕ)
      → Calls l key last l' times
      → last ≤ now
      → (allow now key l').0 ≡ false
      → Calls l key now (allow now key l').1 times
  -- a call with another key
  other :
      {last : ℕ} {l' : SlidingLimiter} {times : List ℕ} (now : ℕ) (key' : Text)
      → Calls l key last l' times
      → last ≤ now
      → text_eq key' key ≡ false
      → Calls l key now (allow now key' l').1 times

length-select : {A : Type 0} (p : A → Bool) (xs : List A) → length (select p xs) ≡ count p xs
length-select p [] = refl
length-select p (x ∷ xs) = ground (arith, length-select p xs)

count-append :
    {A : Type 0} (p : A → Bool) (xs ys : List A) → count p (xs ++ ys) ≡ count p xs + count p ys
count-append p [] ys = omega arith
count-append p (x ∷ xs) ys = ground (arith, count-append p xs ys)

-- what leaves the window early is out of every later one
count-select :
    (window early late : ℕ) (times : List ℕ)
    → early ≤ late
    → count (after_cutoff window late) (select (after_cutoff window early) times)
      ≡ count (after_cutoff window late) times
count-select window early late [] le = refl
count-select window early late (t ∷ ts) le = elim (Bool-cases (after_cutoff window early t)) [
  | inl e ↦ rw e (ground (arith, count-select window early late ts le))
  | inr e ↦ rw e (ground (arith, count-select window early late ts le))
]

count-later :
    (window early late : ℕ) (times : List ℕ)
    → early ≤ late
    → count (after_cutoff window late) times ≤ count (after_cutoff window early) times
count-later window early late [] le = omega arith
count-later window early late (t ∷ ts) le = ground (arith, count-later window early late ts le)

lookup-assign :
    (key : Text) (ts : List ℕ) (hits : List (Text × List ℕ))
    → lookup_or [] key (assign key ts hits) ≡ ts
lookup-assign key ts hits = rw (text_eq_refl key)

-- The kept times count as the allowed ones do, from the last call on.
abbrev Tracks : SlidingLimiter → Text → (last : ℕ) → SlidingLimiter → List ℕ → Type 0
Tracks l key last l' times =
    (l'.window ≡ l.window)
    × (l'.max ≡ l.max)
    × ((now : ℕ)
        → last ≤ now
        → count (after_cutoff l.window now) (lookup_or [] key l'.hits)
          ≡ count (after_cutoff l.window now) times)
    × (count (after_cutoff l.window last) times ≤ l.max)

abbrev kept : ℕ → Text → SlidingLimiter → List ℕ
kept now key l = select (after_cutoff l.window now) (lookup_or [] key l.hits)

allow_iff :
    (now : ℕ) (key : Text) (l : SlidingLimiter)
    → ((allow now key l).0 ≡ true) ↔ (length (kept now key l) < l.max)
unfolding allow
allow_iff now key l = ground arith

allowed_hits :
    (now : ℕ) (key : Text) (l : SlidingLimiter)
    → (allow now key l).0 ≡ true
    → (allow now key l).1 ≡ record l { hits = assign key (kept now key l ++ (now ∷ [])) l.hits }
unfolding allow
allowed_hits now key l e = elim (Bool-cases (leb l.max (length (kept now key l)))) [
  | inl full ↦ let never : false ≡ true = rw full at e in cc
  | inr free ↦ rw free
]

refused_hits :
    (now : ℕ) (key : Text) (l : SlidingLimiter)
    → (allow now key l).0 ≡ false
    → (allow now key l).1 ≡ record l { hits = assign key (kept now key l) l.hits }
unfolding allow
refused_hits now key l e = elim (Bool-cases (leb l.max (length (kept now key l)))) [
  | inl full ↦ rw full
  | inr free ↦ let never : true ≡ false = rw free at e in cc
]

other_hits :
    (now : ℕ) (key key' : Text) (l : SlidingLimiter)
    → text_eq key' key ≡ false
    → let l' = (allow now key' l).1 in
      (l'.window ≡ l.window)
      × (l'.max ≡ l.max)
      × (lookup_or [] key l'.hits ≡ lookup_or [] key l.hits)
unfolding allow
other_hits now key key' l ne = elim (Bool-cases (leb l.max (length (kept now key' l)))) [
  | inl full ↦ rw (full, ne) (refl, refl, refl)
  | inr free ↦ rw (free, ne) (refl, refl, refl)
]

kept-count :
    (l l' : SlidingLimiter) (key : Text) (last now later : ℕ) (times : List ℕ)
    → Tracks l key last l' times
    → last ≤ now
    → now ≤ later
    → count (after_cutoff l.window later) (kept now key l')
      ≡ count (after_cutoff l.window later) times
kept-count l l' key last now later times tr le le' =
    ap
      (λ w.
        count (after_cutoff l.window later)
          (select (after_cutoff w now) (lookup_or [] key l'.hits)))
      tr.0
    ∙ count-select l.window now later (lookup_or [] key l'.hits) le'
    ∙ tr.2 later (omega arith)

kept-length :
    (l l' : SlidingLimiter) (key : Text) (last now : ℕ) (times : List ℕ)
    → Tracks l key last l' times
    → last ≤ now
    → length (kept now key l') ≡ count (after_cutoff l.window now) times
kept-length l l' key last now times tr le =
    ap (λ w. length (select (after_cutoff w now) (lookup_or [] key l'.hits))) tr.0
    ∙ length-select (after_cutoff l.window now) (lookup_or [] key l'.hits)
    ∙ tr.2 now le

allow-Tracks :
    (l l' : SlidingLimiter) (key : Text) (last now : ℕ) (times : List ℕ)
    → Tracks l key last l' times
    → last ≤ now
    → (allow now key l').0 ≡ true
    → Tracks l key now (allow now key l').1 (now ∷ times)
allow-Tracks l l' key last now times tr le e =
    let room = (allow_iff now key l').0 e in
    let size = kept-length l l' key last now times tr le in
    rw (allowed_hits now key l' e) (
      tr.0,
      tr.1,
      λ later le'.
          ap (count (after_cutoff l.window later))
            (lookup-assign key (kept now key l' ++ (now ∷ [])) l'.hits)
          ∙ count-append (after_cutoff l.window later) (kept now key l') (now ∷ [])
          ∙ ground (arith, kept-count l l' key last now later times tr le le'),
      ground (arith, tr.1),
    )

Calls-Tracks :
    (l : SlidingLimiter) (key : Text)
    → l.hits ≡ []
    → {last : ℕ} {l' : SlidingLimiter} {times : List ℕ} → Calls l key last l' times
    → Tracks l key last l' times
Calls-Tracks l key fresh Calls.no_call = (refl, refl, λ now le. rw fresh, omega arith)
Calls-Tracks l key fresh (Calls.allowed {last} {l'} {times} now c le e) =
    allow-Tracks l l' key last now times (Calls-Tracks l key fresh c) le e
Calls-Tracks l key fresh (Calls.refused {last} {l'} {times} now c le e) =
    let tr = Calls-Tracks l key fresh c in
    rw (refused_hits now key l' e) (
      tr.0,
      tr.1,
      λ later le'.
          ap (count (after_cutoff l.window later)) (lookup-assign key (kept now key l') l'.hits)
          ∙ kept-count l l' key last now later times tr le le',
      ground (arith, tr.3, count-later l.window last now times le),
    )
Calls-Tracks l key fresh (Calls.other {last} {l'} {times} now key' c le ne) =
    let tr = Calls-Tracks l key fresh c in
    let same = other_hits now key key' l' ne in
    (
      same.0 ∙ tr.0,
      same.1 ∙ tr.1,
      λ later le'. ap (count (after_cutoff l.window later)) same.2 ∙ tr.2 later (omega arith),
      ground (arith, tr.3, count-later l.window last now times le),
    )

-- After any calls, of any keys, in which time does not go back, those with this key that were allowed and are not older
-- than the window are at most the maximum; and a next call with the key is allowed exactly if they are fewer.
pub sliding_window :
    (l : SlidingLimiter) (key : Text)
    → l.hits ≡ []
    → (last now : ℕ) (l' : SlidingLimiter) (times : List ℕ) → Calls l key last l' times
    → last ≤ now
    → (count (after_cutoff l.window now) times ≤ l.max)
      × (((allow now key l').0 ≡ true) ↔ (count (after_cutoff l.window now) times < l.max))
sliding_window l key fresh last now l' times c le =
    let tr = Calls-Tracks l key fresh c in
    let size = kept-length l l' key last now times tr le in
    let room = allow_iff now key l' in
    (ground (arith, tr.3, count-later l.window last now times le), ground (arith, tr.1, size, room))
