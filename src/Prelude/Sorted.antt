-- ===== src/Prelude/Sorted.antt =====
-- Lists of numbers: membership by `contains`, lists without repetition, ascending lists, and what the
-- stable sort and the removal of duplicates keep.
use Prim.Native.Nat.{ℕ, suc, ◌+◌, ◌<◌}
use mathlib.Core.Path.{◌≡◌, refl, ap, ◌∙◌}
use mathlib.Core.Logic.{inl, inr}
use mathlib.Core.Bool.{Bool, true, false, ◌&&◌, ◌||◌, not}
use mathlib.Core.List.{List, [], ◌∷◌, map}
use native.Mathlib.Omega.{arith}
use allinle.Prelude.Tests.{leb, ◌==◌, Bool-cases}
use allinle.Prelude.Lists.{length, filter, sum_of, insert_by, sort_by, contains, dedup_from}

-- No value stands twice.
abbrev pub Distinct : List ℕ → Type 0
Distinct [] = Unit
Distinct (x ∷ xs) = (contains x xs ≡ false) × Distinct xs

-- Strictly ascending, from a bound that all exceed.
abbrev pub Above : ℕ → List ℕ → Type 0
Above lo [] = Unit
Above lo (x ∷ xs) = (lo < x) × Above x xs

module _ {ℓ} {A : Type ℓ} (le : A → A → Bool) where
  length-insert_by : (x : A) (xs : List A) → length (insert_by le x xs) ≡ suc (length xs)
  length-insert_by x [] = refl
  length-insert_by x (y ∷ ys) = ground (arith, length-insert_by x ys)

  pub length-sort_by : (xs : List A) → length (sort_by le xs) ≡ length xs
  unfolding sort_by
  length-sort_by [] = refl
  length-sort_by (x ∷ xs) = length-insert_by x (sort_by le xs) ∙ ap suc (length-sort_by xs)

  sum_of-insert_by :
      (f : A → ℕ) (x : A) (xs : List A) → sum_of f (insert_by le x xs) ≡ f x + sum_of f xs
  sum_of-insert_by f x [] = refl
  sum_of-insert_by f x (y ∷ ys) = ground (arith, sum_of-insert_by f x ys)

  pub sum_of-sort_by : (f : A → ℕ) (xs : List A) → sum_of f (sort_by le xs) ≡ sum_of f xs
  unfolding sort_by
  sum_of-sort_by f [] = refl
  sum_of-sort_by f (x ∷ xs) =
      omega (arith, sum_of-insert_by f x (sort_by le xs), sum_of-sort_by f xs)

-- Sorting by a number of each item sorts those numbers.
module _ {ℓ} {A : Type ℓ} (key : A → ℕ) where
  map-insert_by :
      (x : A) (xs : List A)
      → map key (insert_by (λ a b. leb (key a) (key b)) x xs) ≡ insert_by leb (key x) (map key xs)
  map-insert_by x [] = refl
  map-insert_by x (y ∷ ys) = ground (arith, map-insert_by x ys)

  pub map-sort_by :
      (xs : List A) → map key (sort_by (λ a b. leb (key a) (key b)) xs) ≡ sort_by leb (map key xs)
  unfolding sort_by
  map-sort_by [] = refl
  map-sort_by (x ∷ xs) =
      map-insert_by x (sort_by (λ a b. leb (key a) (key b)) xs)
      ∙ ap (insert_by leb (key x)) (map-sort_by xs)

module _ (le : ℕ → ℕ → Bool) where
  contains-insert_by :
      (a x : ℕ) (xs : List ℕ) → contains a (insert_by le x xs) ≡ (x == a || contains a xs)
  contains-insert_by a x [] = refl
  contains-insert_by a x (y ∷ ys) = ground (arith, contains-insert_by a x ys)

  pub contains-sort_by : (a : ℕ) (xs : List ℕ) → contains a (sort_by le xs) ≡ contains a xs
  unfolding sort_by
  contains-sort_by a [] = refl
  contains-sort_by a (x ∷ xs) =
      contains-insert_by a x (sort_by le xs) ∙ ap (λ b. x == a || b) (contains-sort_by a xs)

  insert_by-Distinct :
      (x : ℕ) (xs : List ℕ) → Distinct xs → contains x xs ≡ false → Distinct (insert_by le x xs)
  insert_by-Distinct x [] d n = (refl, tt)
  insert_by-Distinct x (y ∷ ys) d n =
      ground (arith, insert_by-Distinct x ys d.1, contains-insert_by y x ys)

  pub sort_by-Distinct : (xs : List ℕ) → Distinct xs → Distinct (sort_by le xs)
  unfolding sort_by
  sort_by-Distinct [] d = tt
  sort_by-Distinct (x ∷ xs) d =
      insert_by-Distinct x (sort_by le xs) (sort_by-Distinct xs d.1) (contains-sort_by x xs ∙ d.0)

insert-Above :
    (lo x : ℕ) (ys : List ℕ)
    → Above lo ys
    → lo < x
    → contains x ys ≡ false
    → Above lo (insert_by leb x ys)
insert-Above lo x [] h p n = (p, tt)
insert-Above lo x (y ∷ ys) h p n = ground (arith, insert-Above y x ys h.1)

-- Sorted, distinct numbers other than 0 ascend from 0.
pub sort-Above : (xs : List ℕ) → Distinct xs → contains 0 xs ≡ false → Above 0 (sort_by leb xs)
unfolding sort_by
sort-Above [] d n = tt
sort-Above (x ∷ xs) d n =
    insert-Above 0 x (sort_by leb xs) (sort-Above xs d.1 (ground arith)) (ground arith)
      (contains-sort_by leb x xs ∙ d.0)

pub contains-Above : (lo a : ℕ) (xs : List ℕ) → Above lo xs → contains a xs ≡ true → lo < a
contains-Above lo a [] h c = cc
contains-Above lo a (x ∷ xs) h c = ground (arith, contains-Above x a xs h.1)

pub contains-dedup_from :
    (a : ℕ) (seen xs : List ℕ)
    → contains a (dedup_from seen xs) ≡ (contains a xs && not (contains a seen))
contains-dedup_from a seen [] = refl
contains-dedup_from a seen (x ∷ xs) =
    ground (arith, contains-dedup_from a seen xs, contains-dedup_from a (x ∷ seen) xs)

pub dedup_from-Distinct : (seen xs : List ℕ) → Distinct (dedup_from seen xs)
dedup_from-Distinct seen [] = tt
dedup_from-Distinct seen (x ∷ xs) = elim (Bool-cases (contains x seen)) [
  | inl old ↦ rw old (dedup_from-Distinct seen xs)
  | inr new ↦ rw new (fresh, dedup_from-Distinct (x ∷ seen) xs)
]
  where
    fresh : contains x (dedup_from (x ∷ seen) xs) ≡ false
    fresh = ground (arith, contains-dedup_from x (x ∷ seen) xs)

pub contains-filter :
    (a : ℕ) (p : ℕ → Bool) (xs : List ℕ) → contains a (filter p xs) ≡ (contains a xs && p a)
contains-filter a p [] = refl
contains-filter a p (x ∷ xs) = ground (arith, contains-filter a p xs, ap p)

pub filter-Distinct : (p : ℕ → Bool) (xs : List ℕ) → Distinct xs → Distinct (filter p xs)
filter-Distinct p [] d = tt
filter-Distinct p (x ∷ xs) d = ground (arith, filter-Distinct p xs d.1, contains-filter x p xs)

module _ {ℓ} {A : Type ℓ} where
  pub sum_of-add :
      (f g : A → ℕ) (xs : List A) → sum_of (λ x. f x + g x) xs ≡ sum_of f xs + sum_of g xs
  sum_of-add f g [] = refl
  sum_of-add f g (x ∷ xs) = omega (arith, sum_of-add f g xs)

  pub length-map {κ} : {B : Type κ} (f : A → B) (xs : List A) → length (map f xs) ≡ length xs
  length-map f [] = refl
  length-map f (x ∷ xs) = ap suc (length-map f xs)
