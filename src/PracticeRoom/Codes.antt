-- ===== src/PracticeRoom/Codes.antt =====
-- The codes of new rooms, in apps/api/src/practice-room/practice-room.service.ts.
use allinle.Prelude.{
  ℕ, suc, zero, ◌<◌, ◌%◌, ◌≡◌, refl, sym, ◌∙◌, subst, ==→eq, ◌⊎◌, true, false, List, [], ◌∷◌, map,
  any, contains, get_or, length, ◌==◌, ==_refl, arith, Bool-cases, inl, inr, ok, err,
}
use allinle.Prelude.Sorted.{length-map}
use allinle.PracticeRoom.{Room, has_code, no_room_code}
use allinle.PracticeRoom.Create.{
  room_code_alphabet, code_of_bytes, generate_room_code, generate_unique_room_code,
}

-- Every letter is one of the alphabet.
abbrev pub IsSpelled : List ℕ → Type 0
IsSpelled [] = Unit
IsSpelled (c ∷ cs) = (contains c room_code_alphabet ≡ true) × IsSpelled cs

contains-get_or : (xs : List ℕ) (i : ℕ) → i < length xs → contains (get_or xs i 0) xs ≡ true
contains-get_or [] i h = absurd (omega arith)
contains-get_or (x ∷ xs) zero h = rw (==_refl x) refl
contains-get_or (x ∷ xs) (suc i) h = ground (arith, contains-get_or xs i)

code_of_bytes-IsSpelled : (bytes : List ℕ) → IsSpelled (code_of_bytes bytes)
unfolding code_of_bytes
code_of_bytes-IsSpelled bytes = spelled bytes
  where
    spelled :
        (bytes : List ℕ)
        → IsSpelled
            (map (λ byte. get_or room_code_alphabet (byte % length room_code_alphabet) 0) bytes)
    spelled [] = tt
    spelled (b ∷ bs) = (contains-get_or room_code_alphabet (b % 32) (omega arith), spelled bs)

-- What a draw of bytes may give.
pub record IsNew (rooms : List Room) (n : ℕ) (code : List ℕ) : Type 0 where
  pub unused : any (has_code code) rooms ≡ false
  pub letters : length code ≡ n
  pub spelled : IsSpelled code

-- Every code of so many draws is some room's.
abbrev pub AllTaken : ℕ → (ℕ → List ℕ) → List Room → Type 0
AllTaken k draw rooms = (i : ℕ) → i < k → any (has_code (code_of_bytes (draw i))) rooms ≡ true

generate_room_code-cases :
    (k n : ℕ) (draw : ℕ → List ℕ) (rooms : List Room)
    → ((i : ℕ) → length (draw i) ≡ n)
    → ((code : List ℕ) × (generate_room_code k draw rooms ≡ ok code) × IsNew rooms n code)
      ⊎ ((generate_room_code k draw rooms ≡ err no_room_code) × AllTaken k draw rooms)
unfolding generate_room_code
generate_room_code-cases zero n draw rooms h = inr (refl, λ i p. absurd (omega arith))
generate_room_code-cases (suc k) n draw rooms h =
    elim (Bool-cases (any (has_code (code_of_bytes (draw k))) rooms)) [
      | inr b ↦ inl (
        code_of_bytes (draw k),
        rw b refl,
        record {
          unused = b;
          letters =
              unfold code_of_bytes in
              length-map (λ byte. get_or room_code_alphabet (byte % length room_code_alphabet) 0)
                (draw k)
              ∙ h k;
          spelled = code_of_bytes-IsSpelled (draw k);
        },
      )
      | inl b ↦ elim (generate_room_code-cases k n draw rooms h) [
        | inl (code, e, new) ↦ inl (code, rw b e, new)
        | inr (e, all) ↦ inr (
          rw b e,
          λ i p. elim (Bool-cases (i == k)) [
            | inl q ↦
                subst (λ j. any (has_code (code_of_bytes (draw j))) rooms ≡ true)
                  (sym (==→eq i k q)) b
            | inr q ↦ all i (ground arith)
          ],
        )
      ]
    ]

-- A new room's code is no other room's, has a letter for each byte that is drawn, and every letter is of
-- the alphabet; the call throws only if the codes of all twenty draws are taken.
pub generate_unique_room_code-cases :
    (n : ℕ) (draw : ℕ → List ℕ) (rooms : List Room)
    → ((i : ℕ) → length (draw i) ≡ n)
    → ((code : List ℕ) × (generate_unique_room_code draw rooms ≡ ok code) × IsNew rooms n code)
      ⊎ ((generate_unique_room_code draw rooms ≡ err no_room_code) × AllTaken 20 draw rooms)
unfolding generate_unique_room_code
generate_unique_room_code-cases n draw rooms h = generate_room_code-cases 20 n draw rooms h
