-- ===== src/Prelude/Translated.antt =====
-- Sorting a list of translated items.
use allinle.Prelude.Tests.{Bool-cases}
use allinle.Prelude.Lists.{insert_by, sort_by}
use mathlib.Core.Path.{◌≡◌, refl, ap, ◌∙◌}
use mathlib.Core.Logic.{inl, inr}
use mathlib.Core.Bool.{Bool}
use mathlib.Core.List.{List, [], ◌∷◌, map}

-- Each item is good.
abbrev pub AllGood : {A : Type 0} → (A → Type 0) → List A → Type 0
AllGood Good [] = Unit
AllGood Good (a ∷ as') = Good a × AllGood Good as'

-- A list is sorted before or after its items are translated, where the two orders agree.
module _ {ℓ} {A : Type 0} {C : Type ℓ} (f : A → C) (le : A → A → Bool) (le_c : C → C → Bool)
    (Good : A → Type 0) (agree : (a b : A) → Good a → Good b → le_c (f a) (f b) ≡ le a b) where
  insert_by-AllGood :
      (a : A) (as' : List A) → Good a → AllGood Good as' → AllGood Good (insert_by le a as')
  insert_by-AllGood a [] g h = (g, tt)
  insert_by-AllGood a (b ∷ bs) g (k, h) = elim (Bool-cases (le a b)) [
    | inl e ↦ rw e (g, (k, h))
    | inr e ↦ rw e (k, insert_by-AllGood a bs g h)
  ]

  pub sort_by-AllGood : (as' : List A) → AllGood Good as' → AllGood Good (sort_by le as')
  unfolding sort_by
  sort_by-AllGood [] h = tt
  sort_by-AllGood (a ∷ as') (g, h) = insert_by-AllGood a (sort_by le as') g (sort_by-AllGood as' h)

  insert_by-map :
      (a : A) (as' : List A)
      → Good a
      → AllGood Good as'
      → insert_by le_c (f a) (map f as') ≡ map f (insert_by le a as')
  insert_by-map a [] g h = refl
  insert_by-map a (b ∷ bs) g (k, h) = elim (Bool-cases (le a b)) [
    | inl e ↦ rw (agree a b g k, e) refl
    | inr e ↦ rw (agree a b g k, e) (ap (λ r. f b ∷ r) (insert_by-map a bs g h))
  ]

  pub sort_by-map :
      (as' : List A) → AllGood Good as' → sort_by le_c (map f as') ≡ map f (sort_by le as')
  unfolding sort_by
  sort_by-map [] h = refl
  sort_by-map (a ∷ as') (g, h) =
      ap (insert_by le_c (f a)) (sort_by-map as' h)
      ∙ insert_by-map a (sort_by le as') g (sort_by-AllGood as' h)
