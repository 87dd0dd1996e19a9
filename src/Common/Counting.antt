-- ===== src/Common/Counting.antt =====
-- How many rows meet a test, and what sorting and removing repeats do to that number.
use agentic_sim_trading.Common.{
  ℕ, suc, ◌≡◌, refl, ap, ◌∙◌, ◌⊎◌, inl, inr, Bool, ◌&&◌, List, [], ◌∷◌, map, arith, ltb, ◌==◌,
  if◌then◌else◌, Bool-cases, length, All, select, any, insert_by, order_by,
}

module _ {ℓ} {A : Type ℓ} where
  abbrev pub count : (A → Bool) → List A → ℕ
  count p [] = 0
  count p (x ∷ xs) = let rest = count p xs in if p x then suc rest else rest

  pub count-insert_by :
      (p : A → Bool) (before : A → A → Bool) (a : A) (xs : List A)
      → count p (insert_by before a xs) ≡ count p (a ∷ xs)
  count-insert_by p before a [] = refl
  count-insert_by p before a (x ∷ xs) = elim (Bool-cases (before a x)) [
    | inl e ↦ rw e
    | inr e ↦ rw e (ground (arith, count-insert_by p before a xs))
  ]

  pub count-order_by :
      (p : A → Bool) (before : A → A → Bool) (xs : List A)
      → count p (order_by before xs) ≡ count p xs
  count-order_by p before [] = refl
  count-order_by p before (x ∷ xs) =
      count-insert_by p before x (order_by before xs) ∙ ground (arith, count-order_by p before xs)

  pub length-insert_by :
      (before : A → A → Bool) (a : A) (xs : List A)
      → length (insert_by before a xs) ≡ suc (length xs)
  length-insert_by before a [] = refl
  length-insert_by before a (x ∷ xs) = elim (Bool-cases (before a x)) [
    | inl e ↦ rw e
    | inr e ↦ rw e (ap suc (length-insert_by before a xs))
  ]

  pub length-order_by :
      (before : A → A → Bool) (xs : List A) → length (order_by before xs) ≡ length xs
  length-order_by before [] = refl
  length-order_by before (x ∷ xs) =
      length-insert_by before x (order_by before xs) ∙ ap suc (length-order_by before xs)

  -- what holds of every row does so after sorting
  pub All-insert_by {κ} :
      (P : A → Type κ) (before : A → A → Bool) (a : A) (xs : List A)
      → P a
      → All P xs
      → All P (insert_by before a xs)
  All-insert_by P before a [] h hs = (h, tt)
  All-insert_by P before a (x ∷ xs) h hs = elim (Bool-cases (before a x)) [
    | inl e ↦ rw e (h, hs)
    | inr e ↦ rw e (hs.0, All-insert_by P before a xs h hs.1)
  ]

  pub All-order_by {κ} :
      (P : A → Type κ) (before : A → A → Bool) (xs : List A) → All P xs → All P (order_by before xs)
  All-order_by P before [] hs = tt
  All-order_by P before (x ∷ xs) hs =
      All-insert_by P before x (order_by before xs) hs.0 (All-order_by P before xs hs.1)

module _ {ℓ} {A : Type ℓ} where
  pub All-select {κ} :
      (P : A → Type κ) (p : A → Bool) (xs : List A) → All P xs → All P (select p xs)
  All-select P p [] h = tt
  All-select P p (x ∷ xs) h = elim (Bool-cases (p x)) [
    | inl e ↦ rw e (h.0, All-select P p xs h.1)
    | inr e ↦ rw e (All-select P p xs h.1)
  ]

  pub any-select : (p : A → Bool) (xs : List A) → any p xs ≡ ltb 0 (length (select p xs))
  any-select p [] = ground arith
  any-select p (x ∷ xs) = elim (Bool-cases (p x)) [
    | inl e ↦ rw e (ground arith)
    | inr e ↦ rw e (any-select p xs)
  ]

  pub List-cases : (xs : List A) → (xs ≡ []) ⊎ ((x : A) × (ys : List A) × (xs ≡ x ∷ ys))
  List-cases [] = inl refl
  List-cases (x ∷ xs) = inr (x, xs, refl)

module _ {ℓ} {A : Type ℓ} where
  pub any-insert_by :
      (p : A → Bool) (before : A → A → Bool) (a : A) (xs : List A)
      → any p (insert_by before a xs) ≡ any p (a ∷ xs)
  any-insert_by p before a [] = refl
  any-insert_by p before a (x ∷ xs) = elim (Bool-cases (before a x)) [
    | inl e ↦ rw e
    | inr e ↦ rw e (ground (arith, any-insert_by p before a xs))
  ]

  pub any-order_by :
      (p : A → Bool) (before : A → A → Bool) (xs : List A) → any p (order_by before xs) ≡ any p xs
  any-order_by p before [] = refl
  any-order_by p before (x ∷ xs) =
      any-insert_by p before x (order_by before xs) ∙ ground (arith, any-order_by p before xs)

module _ {ℓ κ} {A : Type ℓ} {B : Type κ} where
  pub count-map :
      (p : B → Bool) (f : A → B) (xs : List A) → count p (map f xs) ≡ count (λ a. p (f a)) xs
  count-map p f [] = refl
  count-map p f (x ∷ xs) = ground (arith, count-map p f xs)

module _ {ℓ} {A : Type ℓ} where
  -- a query for the values of a column among the rows of a clause
  pub any-map-select :
      (p : A → Bool) (f : A → ℕ) (n : ℕ) (xs : List A)
      → any (λ m. m == n) (map f (select p xs)) ≡ any (λ x. p x && f x == n) xs
  any-map-select p f n [] = refl
  any-map-select p f n (x ∷ xs) = elim (Bool-cases (p x)) [
    | inl e ↦ rw e (ground (arith, any-map-select p f n xs))
    | inr e ↦ rw e (any-map-select p f n xs)
  ]

-- the numbers of a list, each once
abbrev pub distinct_ids : List ℕ → List ℕ
distinct_ids [] = []
distinct_ids (n ∷ ns) =
    let rest = distinct_ids ns in if any (λ m. m == n) ns then rest else n ∷ rest

again :
    (n : ℕ) (ns : List ℕ)
    → count (λ m. m == n) (distinct_ids ns) ≡ (if any (λ m. m == n) ns then 1 else 0)
    → count (λ m. m == n) (distinct_ids (n ∷ ns)) ≡ (if any (λ m. m == n) (n ∷ ns) then 1 else 0)
again n ns h = elim (Bool-cases (any (λ m. m == n) ns)) [
  | inl r ↦ ground arith
  | inr r ↦ ground arith
]

pub count-distinct_ids :
    (n : ℕ) (ns : List ℕ)
    → count (λ m. m == n) (distinct_ids ns) ≡ (if any (λ m. m == n) ns then 1 else 0)
count-distinct_ids n [] = refl
count-distinct_ids n (m ∷ ns) = elim (Bool-cases (m == n)) [
  | inl e ↦ let same : m ≡ n = ground arith in rw same (again n ns (count-distinct_ids n ns))
  | inr e ↦ elim (Bool-cases (any (λ k. k == m) ns)) [
    | inl r ↦ rw (r, e) (count-distinct_ids n ns)
    | inr r ↦ rw (r, e) (count-distinct_ids n ns)
  ]
]
