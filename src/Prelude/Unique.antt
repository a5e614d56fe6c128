-- ===== src/Prelude/Unique.antt =====
-- Tables with a primary key.
use Prim.Native.Nat.{ℕ}
use mathlib.Core.Path.{◌≡◌, refl, sym, subst}
use mathlib.Core.Logic.{inl, inr}
use mathlib.Core.Bool.{Bool, true, false, ◌&&◌, ◌||◌}
use mathlib.Core.Option.{none, some}
use mathlib.Core.List.{List, [], ◌∷◌, ◌++◌, map}
use native.Mathlib.Omega.{arith}
use wi_fi_test_orchestrator.Prelude.Tests.{◌==◌, if◌then◌else◌, Bool-cases}
use wi_fi_test_orchestrator.Prelude.Lists.{All, All-zip, elem}
use wi_fi_test_orchestrator.Prelude.Table.{find, select, count, update}

module _ {ℓ} {A : Type ℓ} where
  -- Updating twice by the same idempotent change is updating the rows of either condition.
  pub update-update :
      (p q : A → Bool) (f : A → A) (xs : List A)
      → ((x : A) → q (f x) ≡ q x)
      → ((x : A) → f (f x) ≡ f x)
      → update q f (update p f xs) ≡ update (λ x. p x || q x) f xs
  unfolding update
  update-update p q f [] keep same = refl
  update-update p q f (x ∷ xs) keep same =
      ground (arith, keep x, same x, update-update p q f xs keep same)

  pub update_none :
      (p : A → Bool) (f : A → A) (xs : List A) → ((x : A) → p x ≡ false) → update p f xs ≡ xs
  unfolding update
  update_none p f [] h = refl
  update_none p f (x ∷ xs) h = ground (arith, h x, update_none p f xs h)

  pub update_congr :
      (p q : A → Bool) (f : A → A) (xs : List A)
      → All (λ x. p x ≡ q x) xs
      → update p f xs ≡ update q f xs
  unfolding update
  update_congr p q f [] h = refl
  update_congr p q f (x ∷ xs) h = ground (arith, update_congr p q f xs h.1)

module _ {ℓ} {A : Type ℓ} (key : A → ℕ) where
  -- No row has the key of another.
  abbrev pub Unique : List A → Type 0
  Unique [] = Unit
  Unique (x ∷ xs) = All (λ y. (key y == key x) ≡ false) xs × Unique xs

  fresh-append :
      (k : ℕ) (xs : List A) (a : A)
      → All (λ y. (key y == k) ≡ false) xs
      → (key a == k) ≡ false
      → All (λ y. (key y == k) ≡ false) (xs ++ a ∷ [])
  fresh-append k [] a h e = (e, tt)
  fresh-append k (x ∷ xs) a h e = (h.0, fresh-append k xs a h.1 e)

  pub Unique-append :
      (xs : List A) (a : A)
      → Unique xs
      → find (λ x. key x == key a) xs ≡ none
      → Unique (xs ++ a ∷ [])
  unfolding find
  Unique-append [] a u h = (tt, tt)
  Unique-append (x ∷ xs) a u h =
      (fresh-append (key x) xs a u.0 (ground arith), Unique-append xs a u.1 (ground arith))

  fresh-update :
      (k : ℕ) (p : A → Bool) (f : A → A) (xs : List A)
      → ((x : A) → key (f x) ≡ key x)
      → All (λ y. (key y == k) ≡ false) xs
      → All (λ y. (key y == k) ≡ false) (update p f xs)
  unfolding update
  fresh-update k p f [] keep h = tt
  fresh-update k p f (x ∷ xs) keep h = (ground (arith, keep x), fresh-update k p f xs keep h.1)

  pub Unique-update :
      (p : A → Bool) (f : A → A) (xs : List A)
      → ((x : A) → key (f x) ≡ key x)
      → Unique xs
      → Unique (update p f xs)
  unfolding update
  Unique-update p f [] keep u = tt
  Unique-update p f (x ∷ xs) keep u =
      (at_head (p x) (fresh-update (key x) p f xs keep u.0), Unique-update p f xs keep u.1)
    where
      at_head :
          (b : Bool)
          → All (λ y. (key y == key x) ≡ false) (update p f xs)
          → All (λ y. (key y == key (if b then f x else x)) ≡ false) (update p f xs)
      at_head true h = subst (λ v. All (λ y. (key y == v) ≡ false) (update p f xs)) (sym (keep x)) h
      at_head false h = h

  fresh-count :
      (k j : ℕ) (q : A → Bool) (xs : List A)
      → j ≡ k
      → All (λ y. (key y == j) ≡ false) xs
      → count (λ x. key x == k && q x) xs ≡ 0
  unfolding count
  fresh-count k j q [] e h = refl
  fresh-count k j q (x ∷ xs) e h = ground (arith, fresh-count k j q xs e h.1)

  fresh-select :
      (k : ℕ) (q : A → Bool) (xs : List A)
      → All (λ y. (key y == k) ≡ false) xs
      → elem k (map key (select q xs)) ≡ false
  unfolding select
  fresh-select k q [] h = refl
  fresh-select k q (x ∷ xs) h = ground (arith, fresh-select k q xs h.1)

  -- The row count of an UPDATE that names the key.
  pub count-eq-find :
      (k : ℕ) (q : A → Bool) (xs : List A)
      → Unique xs
      → count (λ x. key x == k && q x) xs
        ≡ elim (find (λ x. key x == k) xs) [ none ↦ 0 | some a ↦ if q a then 1 else 0 ]
  unfolding count find
  count-eq-find k q [] u = refl
  count-eq-find k q (x ∷ xs) u = elim (Bool-cases (key x == k)) [
    | inl e ↦ ground (arith, fresh-count k (key x) q xs)
    | inr e ↦ ground (arith, count-eq-find k q xs u.1)
  ]

  -- The keys of the selected rows are those of the rows that satisfy the condition.
  pub elem-select :
      (q : A → Bool) (xs : List A)
      → Unique xs
      → All (λ x. elem (key x) (map key (select q xs)) ≡ q x) xs
  unfolding select
  elem-select q [] u = tt
  elem-select q (x ∷ xs) u = (
    ground (arith, fresh-select (key x) q xs),
    All-zip xs (λ y fresh same. ground arith) u.0 (elem-select q xs u.1),
  )

  All-find :
      (P : A → Type 0) (p : A → Bool) (xs : List A) (a : A) → All P xs → find p xs ≡ some a → P a
  unfolding find
  All-find P p [] a h e = absurd (ground (arith, e))
  All-find P p (x ∷ xs) a h e = elim (Bool-cases (p x)) [
    | inl t ↦ subst P (ground (arith, e, t)) h.0
    | inr f ↦ All-find P p xs a h.1 (ground (arith, e, f))
  ]

  -- A row that is found by any condition is found by its key.
  pub find-key :
      (p : A → Bool) (xs : List A) (a : A)
      → Unique xs
      → find p xs ≡ some a
      → find (λ x. key x == key a) xs ≡ some a
  unfolding find
  find-key p [] a u e = absurd (ground (arith, e))
  find-key p (x ∷ xs) a u e = elim (Bool-cases (p x)) [
    | inl t ↦ ground (arith, e, t)
    | inr f ↦
        ground (arith, f, find-key p xs a u.1, All-find (λ y. (key y == key x) ≡ false) p xs a u.0)
  ]
