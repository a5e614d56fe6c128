-- ===== src/Prelude/Counts.antt =====
-- The number of rows that satisfy a condition, after an update, and tables where it is at most one.
use Prim.Native.Nat.{ℕ, suc, ◌≤◌}
use mathlib.Core.Path.{◌≡◌, refl, ap, subst, ◌∙◌}
use mathlib.Core.Logic.{inl, inr}
use mathlib.Core.Bool.{Bool, true, false}
use mathlib.Core.Option.{Option, none, some}
use mathlib.Core.List.{List, [], ◌∷◌}
use native.Mathlib.Omega.{arith}
use wi_fi_test_orchestrator.Prelude.Tests.{◌==◌, ==_iff, Bool-cases}
use wi_fi_test_orchestrator.Prelude.Unique.{Unique}
use wi_fi_test_orchestrator.Prelude.Lists.{All}
use wi_fi_test_orchestrator.Prelude.Table.{find, count, update}

module _ {ℓ} {A : Type ℓ} where
  pub count-update :
      (p q : A → Bool) (f : A → A) (xs : List A)
      → ((x : A) → p (f x) ≡ p x)
      → count p (update q f xs) ≡ count p xs
  unfolding count update
  count-update p q f [] keep = refl
  count-update p q f (x ∷ xs) keep = ground (arith, keep x, count-update p q f xs keep)

  pub count-update-le :
      (p q : A → Bool) (f : A → A) (xs : List A)
      → ((x : A) → p (f x) ≡ false)
      → count p (update q f xs) ≤ count p xs
  unfolding count update
  count-update-le p q f [] drop = omega arith
  count-update-le p q f (x ∷ xs) drop = ground (arith, drop x, count-update-le p q f xs drop)

  pub count-update_self :
      (p : A → Bool) (f : A → A) (xs : List A)
      → ((x : A) → p (f x) ≡ false)
      → count p (update p f xs) ≡ 0
  unfolding count update
  count-update_self p f [] drop = refl
  count-update_self p f (x ∷ xs) drop = ground (arith, drop x, count-update_self p f xs drop)

  -- An update that no row satisfies afterwards takes a row that did from the count.
  pub count-update-lt :
      (p q : A → Bool) (f : A → A) (xs : List A) (a : A)
      → ((x : A) → p (f x) ≡ false)
      → find q xs ≡ some a
      → p a ≡ true
      → suc (count p (update q f xs)) ≤ count p xs
  unfolding count update find
  count-update-lt p q f [] a drop h t = absurd (ground (arith, h))
  count-update-lt p q f (x ∷ xs) a drop h t = elim (Bool-cases (q x)) [
    | inl e ↦ ground (arith, e, h, t, drop x, count-update-le p q f xs drop)
    | inr e ↦ ground (arith, e, h, count-update-lt p q f xs a drop)
  ]

  pub count-find :
      (p q : A → Bool) (xs : List A) (a : A) → find q xs ≡ some a → p a ≡ true → 1 ≤ count p xs
  unfolding count find
  count-find p q [] a h t = absurd (ground (arith, h))
  count-find p q (x ∷ xs) a h t = elim (Bool-cases (q x)) [
    | inl e ↦ ground (arith, e, h, t)
    | inr e ↦ ground (arith, e, h, count-find p q xs a)
  ]

  -- Where at most one row satisfies a condition, any such row that is found is found by it.
  pub find-only :
      (p q : A → Bool) (xs : List A) (a : A)
      → count p xs ≤ 1
      → find q xs ≡ some a
      → p a ≡ true
      → find p xs ≡ some a
  unfolding count find
  find-only p q [] a one h t = absurd (ground (arith, h))
  find-only p q (x ∷ xs) a one h t = elim (Bool-cases (q x)) [
    | inl e ↦ ground (arith, e, h, t)
    | inr e ↦ elim (Bool-cases (p x)) [
      | inl e' ↦ absurd (ground (arith, e, e', h, t, one, count-find p q xs a))
      | inr e' ↦ ground (arith, e, e', h, t, one, find-only p q xs a)
    ]
  ]

  pub count-le :
      (p q : A → Bool) (xs : List A) → ((x : A) → p x ≡ true → q x ≡ true) → count p xs ≤ count q xs
  unfolding count
  count-le p q [] h = omega arith
  count-le p q (x ∷ xs) h = ground (arith, h x, count-le p q xs h)

  pub find-none : (p : A → Bool) (xs : List A) → count p xs ≡ 0 → find p xs ≡ none
  unfolding count find
  find-none p [] h = refl
  find-none p (x ∷ xs) h = ground (arith, h, find-none p xs)

  pub count-none : (p : A → Bool) (xs : List A) → All (λ x. p x ≡ false) xs → count p xs ≡ 0
  unfolding count
  count-none p [] h = refl
  count-none p (x ∷ xs) h = ground (arith, h.0, count-none p xs h.1)

  pub All-map {κ} : (P Q : A → Type κ) (xs : List A) → ((x : A) → P x → Q x) → All P xs → All Q xs
  All-map P Q [] f h = tt
  All-map P Q (x ∷ xs) f h = (f x h.0, All-map P Q xs f h.1)

  update_fresh :
      (p q : A → Bool) (f : A → A) (xs : List A)
      → All (λ x. q x ≡ false) xs
      → count p (update q f xs) ≡ count p xs
  unfolding count update
  update_fresh p q f [] h = refl
  update_fresh p q f (x ∷ xs) h = ground (arith, h.0, update_fresh p q f xs h.1)

  -- The update of the row that a key finds leaves no row that satisfies a condition, if none did and
  -- the changed row does not.
  pub count-update_key :
      (key : A → ℕ) (k : ℕ) (p : A → Bool) (f : A → A) (xs : List A) (a : A)
      → Unique key xs
      → find (λ x. key x == k) xs ≡ some a
      → p (f a) ≡ false
      → count p xs ≡ 0
      → count p (update (λ x. key x == k) f xs) ≡ 0
  unfolding count update find
  count-update_key key k p f [] a u h e z = absurd (ground (arith, h))
  count-update_key key k p f (x ∷ xs) a u h e z = elim (Bool-cases (key x == k)) [
    | inl t ↦
        let rest =
          update_fresh p (λ y. key y == k) f xs
            (subst (λ i. All (λ y. (key y == i) ≡ false) xs) ((==_iff (key x) k).0 t) u.0) in
        let changed = ap p (ap f (same t)) ∙ e in rw (t, changed) (ground (arith, rest, z))
    | inr t ↦ ground (arith, t, z, count-update_key key k p f xs a u.1 (ground (arith, h, t)) e)
  ]
    where
      found : (key x == k) ≡ true → some x ≡ some a
      found t = ground (arith, h, t)

      same : (key x == k) ≡ true → x ≡ a
      same t = ap (λ (o : Option A). elim o [ none ↦ x | some y ↦ y ]) (found t)
