-- ===== src/PracticeRoom/Tables.antt =====
-- Lookups of a room by its two keys, and writes to one row.
use allinle.Prelude.{
  ℕ, ◌≡◌, ◌≢◌, refl, sym, ap, subst, Bool, true, false, List, [], ◌∷◌, ◌++◌, map, some, find,
  contains, ◌==◌, ==_refl, arith, Bool-cases, inl, inr, ok,
}
use allinle.Prelude.Sorted.{Distinct}
use allinle.PracticeRoom.{Room, has_id, has_code, write_room, get_by_room_code}

abbrev pub ids_of : List Room → List ℕ
ids_of rooms = map (λ r. r.id) rooms

-- Every room of the table.
abbrev pub AllRooms {ℓ} : (Room → Type ℓ) → List Room → Type ℓ
AllRooms P [] = Unit
AllRooms P (r ∷ rs) = P r × AllRooms P rs

pub AllRooms-append {ℓ} :
    (P : Room → Type ℓ) (rs : List Room) (r : Room)
    → AllRooms P rs
    → P r
    → AllRooms P (rs ++ r ∷ [])
AllRooms-append P [] r h p = (p, tt)
AllRooms-append P (x ∷ rs) r h p = (h.0, AllRooms-append P rs r h.1 p)

pub AllRooms-map {ℓ} :
    (P : Room → Type ℓ) (f : Room → Room) (rs : List Room)
    → ((r : Room) → P r → P (f r))
    → AllRooms P rs
    → AllRooms P (map f rs)
AllRooms-map P f [] keep h = tt
AllRooms-map P f (r ∷ rs) keep h = (keep r h.0, AllRooms-map P f rs keep h.1)

pub contains-ids :
    (test : Room → Bool) (rs : List Room) (r : Room)
    → find test rs ≡ some r
    → contains r.id (ids_of rs) ≡ true
contains-ids test [] r e = cc
contains-ids test (x ∷ rs) r e = elim (Bool-cases (test x)) [
  | inl b ↦ ground (arith, ==_refl x.id)
  | inr b ↦ ground (arith, contains-ids test rs r)
]

pub find-id : (id : ℕ) (rs : List Room) (r : Room) → find (has_id id) rs ≡ some r → r.id ≡ id
find-id id [] r e = cc
find-id id (x ∷ rs) r e = ground (arith, find-id id rs r)

module _ (f : Room → Room) (same_id : (r : Room) → (f r).id ≡ r.id) where
  pub ids-write_room : (id : ℕ) (rs : List Room) → ids_of (write_room id f rs) ≡ ids_of rs
  unfolding write_room
  ids-write_room id [] = refl
  ids-write_room id (r ∷ rs) = elim (Bool-cases (has_id id r)) [
    | inl b ↦ rw b (ap (λ i. i ∷ ids_of rs) (same_id r))
    | inr b ↦ rw b (ap (λ is. r.id ∷ is) (ids-write_room id rs))
  ]

  -- The row that a lookup returned is the row that a write by its identifier changes.
  pub find-write_room :
      (test : Room → Bool) (rs : List Room) (r : Room)
      → Distinct (ids_of rs)
      → ((x : Room) → test (f x) ≡ test x)
      → find test rs ≡ some r
      → find test (write_room r.id f rs) ≡ some (f r)
  unfolding write_room
  find-write_room test [] r d k e = cc
  find-write_room test (x ∷ rs) r d k e = elim (Bool-cases (test x)) [
    | inl b ↦
        let same : x ≡ r = ground arith in
        subst (λ y. find test (write_room y.id f (x ∷ rs)) ≡ some (f y)) same
          (rw (==_refl x.id, k x, b) refl)
    | inr b ↦
        let later : find test rs ≡ some r = ground arith in
        let apart : (x.id == r.id) ≡ false = ground (arith, contains-ids test rs r later, d.0) in
        rw (apart, b) (find-write_room test rs r d.1 k later)
  ]

  pub find-write_other :
      (id j : ℕ) (rs : List Room)
      → j ≢ id
      → find (has_id j) (write_room id f rs) ≡ find (has_id j) rs
  unfolding write_room
  find-write_other id j [] n = refl
  find-write_other id j (r ∷ rs) n = elim (Bool-cases (has_id id r)) [
    | inl b ↦ ground (arith, same_id r)
    | inr b ↦ ground (arith, find-write_other id j rs n)
  ]

module _ {ℓ} (P : Room → Type ℓ) (f : Room → Room) where
  -- A write to the row that a lookup returned, if the new row has the property.
  pub write_room-AllRooms :
      (test : Room → Bool) (rs : List Room) (r : Room)
      → Distinct (ids_of rs)
      → find test rs ≡ some r
      → P (f r)
      → AllRooms P rs
      → AllRooms P (write_room r.id f rs)
  unfolding write_room
  write_room-AllRooms test [] r d e p h = tt
  write_room-AllRooms test (x ∷ rs) r d e p h = elim (Bool-cases (test x)) [
    | inl b ↦
        let same : x ≡ r = ground arith in
        subst (λ y. AllRooms P (write_room y.id f (x ∷ rs))) same
          (rw (==_refl x.id) (subst (λ y. P (f y)) (sym same) p, h.1))
    | inr b ↦
        let later : find test rs ≡ some r = ground arith in
        let apart : (x.id == r.id) ≡ false = ground (arith, contains-ids test rs r later, d.0) in
        rw apart (h.0, write_room-AllRooms test rs r d.1 later p h.1)
  ]

pub find-AllRooms {ℓ} :
    (P : Room → Type ℓ) (test : Room → Bool) (rs : List Room) (r : Room)
    → find test rs ≡ some r
    → AllRooms P rs
    → P r
find-AllRooms P test [] r e h = cc
find-AllRooms P test (x ∷ rs) r e h = elim (Bool-cases (test x)) [
  | inl b ↦ subst P (ground arith) h.0
  | inr b ↦ find-AllRooms P test rs r (ground arith) h.1
]

pub get_by_room_code-found :
    (rooms : List Room) (code : List ℕ) (r : Room)
    → get_by_room_code rooms code ≡ ok r
    → find (has_code code) rooms ≡ some r
unfolding get_by_room_code
get_by_room_code-found rooms code r e = ground arith
