-- ===== src/Prelude/Text.antt =====
-- Text as the list of its code points, and the test for a part of a text.
use Prim.Native.Char.{code}
use Prim.Native.String.{String}
use allinle.Prelude.{
  ℕ, ◌≡◌, refl, ap, Bool, true, false, ◌&&◌, ◌||◌, List, [], ◌∷◌, ◌++◌, ◌==◌, Bool-cases, inl, inr,
  arith,
}

-- The code points of a text.
abbrev pub codes : String → List ℕ
codes String.[] = []
codes (String.◌∷◌ c s) = code c ∷ codes s

-- The same code points.
unfoldable pub same_text : List ℕ → List ℕ → Bool
same_text [] [] = true
same_text [] (b ∷ bs) = false
same_text (a ∷ as') [] = false
same_text (a ∷ as') (b ∷ bs) = (a == b) && same_text as' bs

pub same_text→eq : (s t : List ℕ) → same_text s t ≡ true → s ≡ t
unfolding same_text
same_text→eq [] [] h = refl
same_text→eq [] (b ∷ t) h = cc
same_text→eq (a ∷ s) [] h = cc
same_text→eq (a ∷ s) (b ∷ t) h = ground (arith, same_text→eq s t)

pub same_text_refl : (s : List ℕ) → same_text s s ≡ true
unfolding same_text
same_text_refl [] = refl
same_text_refl (a ∷ s) = ground (arith, same_text_refl s)

unfoldable pub starts_with : List ℕ → List ℕ → Bool
starts_with [] text = true
starts_with (w ∷ ws) [] = false
starts_with (w ∷ ws) (c ∷ cs) = (w == c) && starts_with ws cs

-- `text.includes(word)`
unfoldable pub includes : List ℕ → List ℕ → Bool
unfolding starts_with
includes word [] = starts_with word []
includes word (c ∷ cs) = starts_with word (c ∷ cs) || includes word cs

starts_with-some :
    (word text : List ℕ) → starts_with word text ≡ true → (after : List ℕ) × (text ≡ word ++ after)
unfolding starts_with
starts_with-some [] text h = (text, refl)
starts_with-some (w ∷ ws) [] h = cc
starts_with-some (w ∷ ws) (c ∷ cs) h =
    let (after, e) = starts_with-some ws cs (ground arith) in (after, ground arith)

starts_with-append : (word after : List ℕ) → starts_with word (word ++ after) ≡ true
unfolding starts_with
starts_with-append [] after = refl
starts_with-append (w ∷ ws) after = ground (arith, starts_with-append ws after)

pub includes-some :
    (word text : List ℕ)
    → includes word text ≡ true
    → (before : List ℕ) × (after : List ℕ) × (text ≡ before ++ (word ++ after))
unfolding includes
includes-some word [] h = let (after, e) = starts_with-some word [] h in ([], after, e)
includes-some word (c ∷ cs) h = elim (Bool-cases (starts_with word (c ∷ cs))) [
  | inl b ↦ let (after, e) = starts_with-some word (c ∷ cs) b in ([], after, e)
  | inr b ↦
      let (before, after, e) = includes-some word cs (ground arith) in
      (c ∷ before, after, ap (λ t. c ∷ t) e)
]

pub includes-append :
    (before word after : List ℕ) → includes word (before ++ (word ++ after)) ≡ true
unfolding includes
includes-append [] [] [] = refl
includes-append [] [] (a ∷ as') = refl
includes-append [] (w ∷ ws) after = rw (starts_with-append (w ∷ ws) after) refl
includes-append (b ∷ bs) word after = ground (arith, includes-append bs word after)
