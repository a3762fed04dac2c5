-- ===== src/Risk/Words.antt =====
-- What `containsSensitiveWord` finds.
use allinle.Prelude.{
  ℕ, ◌≡◌, ◌↔◌, refl, sym, subst, true, List, [], ◌∷◌, ◌++◌, some, any, Bool-cases, inl, inr, arith,
}
use allinle.Prelude.Text.{includes, includes-some, includes-append}
use allinle.Risk.{sensitive_words, contains_sensitive_word}

-- A list holds an item, at some place.
abbrev pub Holds : List (List ℕ) → List ℕ → Type 0
Holds words w = (front : List (List ℕ)) × (back : List (List ℕ)) × (words ≡ front ++ w ∷ back)

-- A word of the list stands somewhere in the text.
abbrev pub HasWord : List (List ℕ) → List ℕ → Type 0
HasWord words text =
    (w : List ℕ) × Holds words w
    × (before : List ℕ) × (after : List ℕ) × (text ≡ before ++ (w ++ after))

any-HasWord :
    (words : List (List ℕ)) (text : List ℕ)
    → any (λ w. includes w text) words ≡ true
    → HasWord words text
any-HasWord [] text h = cc
any-HasWord (w ∷ ws) text h = elim (Bool-cases (includes w text)) [
  | inl b ↦ let (before, after, e) = includes-some w text b in (w, ([], ws, refl), before, after, e)
  | inr b ↦
      let (v, (i, j, e), before, after, place) = any-HasWord ws text (ground arith) in
      (v, (w ∷ i, j, ground arith), before, after, place)
]

HasWord-any :
    (pre post : List (List ℕ)) (w text : List ℕ)
    → includes w text ≡ true
    → any (λ v. includes v text) (pre ++ w ∷ post) ≡ true
HasWord-any [] post w text h = rw h refl
HasWord-any (v ∷ vs) post w text h = ground (arith, HasWord-any vs post w text)

-- A text that is there and is not empty is found sensitive exactly if one of the words of the list
-- stands somewhere in it.
pub contains_sensitive_word_iff :
    (c : ℕ) (cs : List ℕ)
    → (contains_sensitive_word (some (c ∷ cs)) ≡ true) ↔ HasWord sensitive_words (c ∷ cs)
unfolding contains_sensitive_word
contains_sensitive_word_iff c cs = (
  any-HasWord sensitive_words (c ∷ cs),
  λ found.
      let (w, (i, j, e), before, after, place) = found in
      subst (λ words. any (λ v. includes v (c ∷ cs)) words ≡ true) (sym e)
        (HasWord-any i j w (c ∷ cs)
          (subst (λ t. includes w t ≡ true) (sym place) (includes-append before w after))),
)
