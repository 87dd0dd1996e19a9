-- ===== src/Common/Tables.antt =====
-- What a query finds after an update, an insertion or a deletion.
use mathlib.Core.Path.{◌≡◌, refl, sym, ap, ◌∙◌}
use mathlib.Core.Logic.{inl, inr}
use mathlib.Core.Bool.{Bool, true, false}
use mathlib.Core.Option.{none, some}
use mathlib.Core.List.{List, [], ◌∷◌, ◌++◌}
use native.Mathlib.Omega.{arith}
use agentic_sim_trading.Common.Tests.{Bool-cases, if◌then◌else◌}
use agentic_sim_trading.Common.Lists.{find?, update, delete, any}

module _ {ℓ} {A : Type ℓ} where
  -- an UPDATE is seen by a query for the same rows
  pub find?-update :
      (p : A → Bool) (f : A → A)
      → ((a : A) → p (f a) ≡ p a)
      → (xs : List A) {a : A} → find? p xs ≡ some a
      → find? p (update p f xs) ≡ some (f a)
  find?-update p f keep [] e = cc
  find?-update p f keep (x ∷ xs) {a} e = elim (Bool-cases (p x)) [
    | inl t ↦ ground (arith, keep x)
    | inr t ↦ rw (t, t) (find?-update p f keep xs (rw t at e))
  ]

  -- an UPDATE of other rows is not
  pub find?-update_ne :
      (p q : A → Bool) (f : A → A)
      → ((a : A) → p a ≡ true → q a ≡ false)
      → ((a : A) → q (f a) ≡ q a)
      → (xs : List A) → find? q (update p f xs) ≡ find? q xs
  find?-update_ne p q f apart keep [] = refl
  find?-update_ne p q f apart keep (x ∷ xs) = elim (Bool-cases (p x)) [
    | inl t ↦ rw (t, keep x, apart x t) (find?-update_ne p q f apart keep xs)
    | inr t ↦ rw (t, find?-update_ne p q f apart keep xs)
  ]

  pub find?-append_none :
      (p : A → Bool) (xs : List A) (a : A)
      → find? p xs ≡ none
      → p a ≡ true
      → find? p (xs ++ (a ∷ [])) ≡ some a
  find?-append_none p [] a e h = rw h
  find?-append_none p (x ∷ xs) a e h = elim (Bool-cases (p x)) [
    | inl t ↦ ground arith
    | inr t ↦ ground (arith, find?-append_none p xs a)
  ]

  pub find?-append_ne :
      (p : A → Bool) (xs : List A) (a : A) → p a ≡ false → find? p (xs ++ (a ∷ [])) ≡ find? p xs
  find?-append_ne p [] a h = rw h
  find?-append_ne p (x ∷ xs) a h = rw (find?-append_ne p xs a h)

  pub find?-delete : (p : A → Bool) (xs : List A) → find? p (delete p xs) ≡ none
  find?-delete p [] = refl
  find?-delete p (x ∷ xs) = elim (Bool-cases (p x)) [
    | inl t ↦ rw t (find?-delete p xs)
    | inr t ↦ rw (t, t) (find?-delete p xs)
  ]

  pub find?-delete_ne :
      (p q : A → Bool)
      → ((a : A) → p a ≡ true → q a ≡ false)
      → (xs : List A) → find? q (delete p xs) ≡ find? q xs
  find?-delete_ne p q apart [] = refl
  find?-delete_ne p q apart (x ∷ xs) = elim (Bool-cases (p x)) [
    | inl t ↦ rw (t, apart x t) (find?-delete_ne p q apart xs)
    | inr t ↦ rw t (rw (find?-delete_ne p q apart xs))
  ]

  -- an UPDATE of some of the rows that a query is for
  pub find?-update_if :
      (p q : A → Bool) (f : A → A)
      → ((a : A) → q (f a) ≡ q a)
      → (xs : List A) {a : A} → find? q xs ≡ some a
      → find? q (update p f xs) ≡ some (if p a then f a else a)
  find?-update_if p q f keep [] e = cc
  find?-update_if p q f keep (x ∷ xs) {a} e = elim (Bool-cases (q x)) [
    | inl t ↦
        let same : x ≡ a = ground arith in
        let g = ap (λ (y : A). some (if p y then f y else y)) same in
        elim (Bool-cases (p x)) [
          | inl s ↦ rw (s, keep x, t) (rw s at g)
          | inr s ↦ rw (s, t) (rw s at g)
        ]
    | inr t ↦
        let rest = find?-update_if p q f keep xs (rw t at e) in
        elim (Bool-cases (p x)) [ inl s ↦ rw (s, keep x, t) rest | inr s ↦ rw (s, t) rest ]
  ]

  -- a narrower query finds the same row, if the row meets it
  pub find?-narrow :
      (p q : A → Bool)
      → ((a : A) → p a ≡ true → q a ≡ true)
      → (xs : List A) {a : A} → find? q xs ≡ some a
      → p a ≡ true
      → find? p xs ≡ some a
  find?-narrow p q sub [] e h = cc
  find?-narrow p q sub (x ∷ xs) {a} e h = elim (Bool-cases (q x)) [
    | inl t ↦
        let same : x ≡ a = ground arith in
        let px : p x ≡ true = ap p same ∙ h in rw px (ap some same)
    | inr t ↦ elim (Bool-cases (p x)) [
      | inl s ↦ let never : true ≡ false = sym (sub x s) ∙ t in cc
      | inr s ↦ rw s (find?-narrow p q sub xs (rw t at e) h)
    ]
  ]

  -- what a query finds meets it
  pub find?-holds : (p : A → Bool) (xs : List A) {a : A} → find? p xs ≡ some a → p a ≡ true
  find?-holds p [] e = cc
  find?-holds p (x ∷ xs) {a} e = elim (Bool-cases (p x)) [
    | inl t ↦ let same : x ≡ a = ground arith in sym (ap p same) ∙ t
    | inr t ↦ find?-holds p xs (rw t at e)
  ]

  -- an UPDATE that takes every row out of a query
  pub find?-update_gone :
      (p : A → Bool) (f : A → A)
      → ((a : A) → p (f a) ≡ false)
      → (xs : List A) → find? p (update p f xs) ≡ none
  find?-update_gone p f gone [] = refl
  find?-update_gone p f gone (x ∷ xs) = elim (Bool-cases (p x)) [
    | inl t ↦ rw (t, gone x) (find?-update_gone p f gone xs)
    | inr t ↦ rw (t, t) (find?-update_gone p f gone xs)
  ]

  -- a query that finds a row is one for some row
  pub any-find? : (p : A → Bool) (xs : List A) {a : A} → find? p xs ≡ some a → any p xs ≡ true
  any-find? p [] e = cc
  any-find? p (x ∷ xs) e = elim (Bool-cases (p x)) [
    | inl t ↦ rw t
    | inr t ↦ rw t (any-find? p xs (rw t at e))
  ]

  pub none_matching : (p : A → Bool) (xs : List A) → find? p xs ≡ none → any p xs ≡ false
  none_matching p [] e = refl
  none_matching p (x ∷ xs) e = elim (Bool-cases (p x)) [
    | inl t ↦ let never : some x ≡ none = rw t at e in cc
    | inr t ↦ rw t (none_matching p xs (rw t at e))
  ]
