-- ===== src/Prelude/Table.antt =====
-- Tables of rows in insertion order, with the SQL statements that the program issues.
use Prim.Native.Nat.{ℕ, ◌+◌, ◌≤◌}
use mathlib.Core.Path.{◌≡◌, refl, ap}
use mathlib.Core.Bool.{Bool, true, false}
use mathlib.Core.Option.{Option, none, some}
use mathlib.Core.List.{List, [], ◌∷◌, ◌++◌}
use native.Mathlib.Omega.{arith}
use wi_fi_test_orchestrator.Prelude.Tests.{if◌then◌else◌}
use wi_fi_test_orchestrator.Prelude.Lists.{All}

module _ {ℓ} {A : Type ℓ} where
  -- SELECT * FROM t WHERE p, the first row
  unfoldable pub find : (A → Bool) → List A → Option A
  find p [] = none
  find p (x ∷ xs) = if p x then some x else find p xs

  -- SELECT * FROM t WHERE p
  unfoldable pub select : (A → Bool) → List A → List A
  select p [] = []
  select p (x ∷ xs) = let rest = select p xs in if p x then x ∷ rest else rest

  -- SELECT COUNT(*) FROM t WHERE p: also the row count of an UPDATE or a DELETE
  unfoldable pub count : (A → Bool) → List A → ℕ
  count p [] = 0
  count p (x ∷ xs) = (if p x then 1 else 0) + count p xs

  -- UPDATE t SET x = f x WHERE p
  unfoldable pub update : (A → Bool) → (A → A) → List A → List A
  update p f [] = []
  update p f (x ∷ xs) = (if p x then f x else x) ∷ update p f xs

  -- DELETE FROM t WHERE p
  unfoldable pub delete : (A → Bool) → List A → List A
  delete p [] = []
  delete p (x ∷ xs) = let rest = delete p xs in if p x then rest else x ∷ rest

  pub find-append :
      (p : A → Bool) (xs ys : List A)
      → find p (xs ++ ys) ≡ elim (find p xs) [ none ↦ find p ys | some a ↦ some a ]
  unfolding find
  find-append p [] ys = refl
  find-append p (x ∷ xs) ys = ground (arith, find-append p xs ys)

  pub count-append : (p : A → Bool) (xs ys : List A) → count p (xs ++ ys) ≡ count p xs + count p ys
  unfolding count
  count-append p [] ys = omega arith
  count-append p (x ∷ xs) ys = omega (arith, count-append p xs ys)

  -- A row that is found satisfies the condition.
  pub find-eq-some : (p : A → Bool) (xs : List A) (a : A) → find p xs ≡ some a → p a ≡ true
  unfolding find
  find-eq-some p [] a h = cc
  find-eq-some p (x ∷ xs) a h = ground (arith, find-eq-some p xs a)

  pub find-eq-none : (p : A → Bool) (xs : List A) → find p xs ≡ none → count p xs ≡ 0
  unfolding find count
  find-eq-none p [] h = refl
  find-eq-none p (x ∷ xs) h = ground (arith, find-eq-none p xs)

  -- An update that keeps the tested key keeps what a search by the key finds, up to the update.
  pub find-update :
      (p q : A → Bool) (f : A → A) (xs : List A)
      → ((x : A) → q (f x) ≡ q x)
      → find q (update p f xs)
        ≡ elim (find q xs) [ none ↦ none | some a ↦ some (if p a then f a else a) ]
  unfolding find update
  find-update p q f [] keep = refl
  find-update p q f (x ∷ xs) keep = ground (arith, keep x, find-update p q f xs keep)

  pub update-append :
      (p : A → Bool) (f : A → A) (xs ys : List A)
      → update p f (xs ++ ys) ≡ update p f xs ++ update p f ys
  unfolding update
  update-append p f [] ys = refl
  update-append p f (x ∷ xs) ys = ap (λ r. (if p x then f x else x) ∷ r) (update-append p f xs ys)

  -- An update that meets no row.
  pub update-none : (p : A → Bool) (f : A → A) (xs : List A) → find p xs ≡ none → update p f xs ≡ xs
  unfolding find update
  update-none p f [] h = refl
  update-none p f (x ∷ xs) h = ground (arith, h, update-none p f xs)

  pub All-update {κ} :
      (P : A → Type κ) (p : A → Bool) (f : A → A) (xs : List A)
      → ((x : A) → p x ≡ true → P x → P (f x))
      → All P xs
      → All P (update p f xs)
  unfolding update
  All-update P p f [] keep h = h
  All-update P p f (x ∷ xs) keep h = (row (p x) (keep x) h.0, All-update P p f xs keep h.1)
    where
      row : (b : Bool) → (b ≡ true → P x → P (f x)) → P x → P (if b then f x else x)
      row true k hx = k refl hx
      row false k hx = hx

  pub find-delete : (p : A → Bool) (xs : List A) → find p (delete p xs) ≡ none
  unfolding find delete
  find-delete p [] = refl
  find-delete p (x ∷ xs) = ground (arith, find-delete p xs)

  pub count-delete : (p q : A → Bool) (xs : List A) → count q (delete p xs) ≤ count q xs
  unfolding count delete
  count-delete p q [] = omega arith
  count-delete p q (x ∷ xs) = ground (arith, count-delete p q xs)
