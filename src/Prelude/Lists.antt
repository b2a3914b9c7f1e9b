-- ===== src/Prelude/Lists.antt =====
-- Lists filtered by Boolean tests and measured by native numbers.
use Prim.Native.Nat.{ℕ, zero, suc, ◌+◌, ◌≤◌}
use mathlib.Core.Path.{◌≡◌, refl, ap}
use mathlib.Core.Bool.{Bool, true, false, ◌&&◌, ◌||◌}
use mathlib.Core.List.{List, [], ◌∷◌, ◌++◌, map}
use native.Mathlib.Omega.{arith}
use ats_project_management_b.Prelude.Tests.{if◌then◌else◌}

module _ {ℓ} {A : Type ℓ} where
  abbrev pub length : List A → ℕ
  length [] = 0
  length (x ∷ xs) = suc (length xs)

  abbrev pub take : ℕ → List A → List A
  take zero xs = []
  take (suc n) [] = []
  take (suc n) (x ∷ xs) = x ∷ take n xs

  abbrev pub drop : ℕ → List A → List A
  drop zero xs = xs
  drop (suc n) [] = []
  drop (suc n) (x ∷ xs) = drop n xs

  abbrev pub filter : (A → Bool) → List A → List A
  filter p [] = []
  filter p (x ∷ xs) = let rest = filter p xs in if p x then x ∷ rest else rest

  abbrev pub any : (A → Bool) → List A → Bool
  any p [] = false
  any p (x ∷ xs) = p x || any p xs

  -- The number of elements that pass a test.
  abbrev pub count : (A → Bool) → List A → ℕ
  count p [] = 0
  count p (x ∷ xs) = (if p x then 1 else 0) + count p xs

  -- Change the elements that pass a test.
  abbrev pub change_where : (A → Bool) → (A → A) → List A → List A
  change_where p f = map (λ r. if p r then f r else r)

  -- Every element satisfies a predicate.
  abbrev pub All {κ} : (A → Type κ) → List A → Type κ
  All P [] = Unit
  All P (x ∷ xs) = P x × All P xs

module _ {ℓ} {A : Type ℓ} where
  pub length-append : (xs ys : List A) → length (xs ++ ys) ≡ length xs + length ys
  length-append [] ys = omega arith
  length-append (x ∷ xs) ys = omega (arith, length-append xs ys)

  pub count-append : (p : A → Bool) (xs ys : List A) → count p (xs ++ ys) ≡ count p xs + count p ys
  count-append p [] ys = omega arith
  count-append p (x ∷ xs) ys = omega (arith, count-append p xs ys)

  pub length-filter : (p : A → Bool) (xs : List A) → length (filter p xs) ≡ count p xs
  length-filter p [] = refl
  length-filter p (x ∷ xs) = ground (arith, length-filter p xs)

  pub length-map : (f : A → A) (xs : List A) → length (map f xs) ≡ length xs
  length-map f [] = refl
  length-map f (x ∷ xs) = omega (arith, length-map f xs)

  pub filter_ext :
      (p q : A → Bool) (xs : List A) → ((r : A) → p r ≡ q r) → filter p xs ≡ filter q xs
  filter_ext p q [] h = refl
  filter_ext p q (x ∷ xs) h = rw (h x, filter_ext p q xs h) refl

  pub count-map :
      (p : A → Bool) (f : A → A) (xs : List A) → count p (map f xs) ≡ count (λ x. p (f x)) xs
  count-map p f [] = refl
  count-map p f (x ∷ xs) = ap (λ (n : ℕ). (if p (f x) then 1 else 0) + n) (count-map p f xs)

  pub count-filter :
      (p q : A → Bool) (xs : List A) → count p (filter q xs) ≡ count (λ x. q x && p x) xs
  count-filter p q [] = refl
  count-filter p q (x ∷ xs) = ground (arith, count-filter p q xs)

  pub count_mono :
      (p q : A → Bool) (xs : List A) → ((x : A) → p x ≡ true → q x ≡ true) → count p xs ≤ count q xs
  count_mono p q [] h = omega arith
  count_mono p q (x ∷ xs) h = ground (arith, count_mono p q xs h, h x)

  pub any-count : (p : A → Bool) (xs : List A) → any p xs ≡ false → count p xs ≡ 0
  any-count p [] h = refl
  any-count p (x ∷ xs) h = ground (arith, any-count p xs)

  pub filter-append :
      (p : A → Bool) (xs ys : List A) → filter p (xs ++ ys) ≡ filter p xs ++ filter p ys
  filter-append p [] ys = refl
  filter-append p (x ∷ xs) ys = ground (arith, filter-append p xs ys)

  -- A change that a test does not see happens as well after the test.
  pub filter-change_where :
      (p q : A → Bool) (f : A → A) (xs : List A)
      → ((r : A) → p (f r) ≡ p r)
      → filter p (change_where q f xs) ≡ change_where q f (filter p xs)
  filter-change_where p q f [] h = refl
  filter-change_where p q f (x ∷ xs) h = ground (arith, filter-change_where p q f xs h, h x)

  -- Rows that fail a test before and after a change are changed unseen by it.
  pub filter-change_where_outside :
      (p q : A → Bool) (f : A → A) (xs : List A)
      → ((r : A) → q r ≡ true → p r ≡ false)
      → ((r : A) → q r ≡ true → p (f r) ≡ false)
      → filter p (change_where q f xs) ≡ filter p xs
  filter-change_where_outside p q f [] h k = refl
  filter-change_where_outside p q f (x ∷ xs) h k =
      ground (arith, filter-change_where_outside p q f xs h k, h x, k x)

  -- No row passes a test that the change undoes.
  pub count-change_where_undone :
      (p q : A → Bool) (f : A → A) (xs : List A)
      → ((r : A) → p r ≡ true → q r ≡ true)
      → ((r : A) → q r ≡ true → p (f r) ≡ false)
      → count p (change_where q f xs) ≡ 0
  count-change_where_undone p q f [] h k = refl
  count-change_where_undone p q f (x ∷ xs) h k =
      ground (arith, count-change_where_undone p q f xs h k, h x, k x)

  pub filter-any :
      (p q : A → Bool) (xs : List A)
      → ((r : A) → q r ≡ true → p r ≡ true)
      → any p xs ≡ false
      → filter q xs ≡ []
  filter-any p q [] h e = refl
  filter-any p q (x ∷ xs) h e = ground (arith, filter-any p q xs h, h x)

  -- The first element that a filter keeps passes it …
  pub filter-head_passes :
      (q : A → Bool) (xs : List A) {r : A} {rest : List A} → filter q xs ≡ r ∷ rest → q r ≡ true
  filter-head_passes q [] e = cc
  filter-head_passes q (x ∷ xs) {r} {rest} e =
      ground (arith, filter-head_passes q xs {r = r} {rest = rest})

  -- … and is an element of the list.
  pub filter-head_any :
      (p q : A → Bool) (xs : List A) {r : A} {rest : List A}
      → any p xs ≡ false
      → filter q xs ≡ r ∷ rest
      → p r ≡ false
  filter-head_any p q [] h e = cc
  filter-head_any p q (x ∷ xs) {r} {rest} h e =
      ground (arith, filter-head_any p q xs {r = r} {rest = rest})

  pub filter-head_count :
      (p q : A → Bool) (xs : List A) {r : A} {rest : List A}
      → count p xs ≡ 0
      → filter q xs ≡ r ∷ rest
      → p r ≡ false
  filter-head_count p q [] h e = cc
  filter-head_count p q (x ∷ xs) {r} {rest} h e =
      ground (arith, filter-head_count p q xs {r = r} {rest = rest})

  -- Two tests that exclude each other, inside a third.
  pub count_disjoint :
      (p q r : A → Bool) (xs : List A)
      → ((x : A) → (if p x then 1 else 0) + (if q x then 1 else 0) ≤ (if r x then 1 else 0))
      → count p xs + count q xs ≤ count r xs
  count_disjoint p q r [] h = omega arith
  count_disjoint p q r (x ∷ xs) h = omega (arith, h x, count_disjoint p q r xs h)

  pub length-take : (n : ℕ) (xs : List A) → length (take n xs) ≤ n
  length-take zero xs = omega arith
  length-take (suc n) [] = omega arith
  length-take (suc n) (x ∷ xs) = omega (arith, length-take n xs)

  pub count_ext : (p q : A → Bool) (xs : List A) → ((r : A) → p r ≡ q r) → count p xs ≡ count q xs
  count_ext p q [] h = refl
  count_ext p q (x ∷ xs) h = rw (h x, count_ext p q xs h) refl
