-- ===== src/Prelude/Results.antt =====
-- Results of code that may throw.
use mathlib.Core.Path.{◌≡◌, refl, subst}
use mathlib.Core.Logic.{◌⊎◌, inl, inr, ◌≢◌}
use mathlib.Core.Bool.{Bool, true, false}
use mathlib.Core.Option.{Option, none, some}
use mathlib.Core.List.{List, [], ◌∷◌}
use allinle.Prelude.Tests.{if◌then◌else◌}

pub data Result {ℓ} (E : Type 0) (A : Type ℓ) : Type ℓ where
  ok : A → Result E A
  err : E → Result E A

infixl 5 ◌>>=◌ ◌>>◌
abbrev pub ◌>>=◌ {ℓ κ} :
    {E : Type 0} {A : Type ℓ} {B : Type κ} → Result E A → (A → Result E B) → Result E B
ok a >>= f = f a
err e >>= f = err e

abbrev pub ◌>>◌ {ℓ} : {E : Type 0} {B : Type ℓ} → Result E (Unit {0}) → Result E B → Result E B
m >> k = m >>= λ _. k

-- `if (test) throw e`
abbrev pub throw_if : {E : Type 0} → Bool → E → Result E (Unit {0})
throw_if true e = err e
throw_if false e = ok tt

abbrev pub or_throw {ℓ} : {E : Type 0} {A : Type ℓ} → Option A → E → Result E A
or_throw none e = err e
or_throw (some a) e = ok a

-- `xs.map(f)` where `f` may throw.
abbrev pub map_result {ℓ κ} :
    {E : Type 0} {A : Type ℓ} {B : Type κ} → (A → Result E B) → List A → Result E (List B)
map_result f [] = ok []
map_result f (x ∷ xs) = f x >>= λ y. map_result f xs >>= λ ys. ok (y ∷ ys)

-- A chain that returned had a first step that returned.
pub >>=-eq-ok {ℓ κ} :
    {E : Type 0} {A : Type ℓ} {B : Type κ} {y : B} (first : Result E A) (next : A → Result E B)
    → (first >>= next) ≡ ok y
    → (x : A) × (first ≡ ok x) × (next x ≡ ok y)
>>=-eq-ok (err _) _ returned = cc
>>=-eq-ok (ok x) _ returned = (x, refl, returned)

pub ok_injective {ℓ} :
    {E : Type 0} {A : Type ℓ} {a b : A} → ◌≡◌ {A = Result E A} (ok a) (ok b) → a ≡ b
ok_injective h = cc

-- A test that let the code go on was false.
pub throw_if-eq-ok :
    {E : Type 0} (b : Bool) (e : E) {u : Unit {0}} → throw_if b e ≡ ok u → b ≡ false
throw_if-eq-ok true e h = cc
throw_if-eq-ok false e h = refl

pub Result-cases {ℓ} :
    {E : Type 0} {A : Type ℓ} (r : Result E A) → ((e : E) × (r ≡ err e)) ⊎ ((a : A) × (r ≡ ok a))
Result-cases (ok a) = inr (a, refl)
Result-cases (err e) = inl (e, refl)

-- A result that is an error, or a value with a property.
pub data Ensures {ℓ κ} {E : Type 0} {A : Type ℓ} (P : A → Type κ) : Result E A → Type (ℓ ⊔ κ) where
  good : {a : A} → P a → Ensures P (ok a)
  failed : {e : E} → Ensures P (err e)

module _ {ℓ κ} {E : Type 0} {A : Type ℓ} {P : A → Type κ} where
  pub Ensures-ok : {a : A} → Ensures {E = E} P (ok a) → P a
  Ensures-ok (good h) = h

  pub Ensures-guard :
      (b : Bool) (e : E) (k : Result E A)
      → (b ≡ false → Ensures P k)
      → Ensures P (throw_if b e >> k)
  Ensures-guard true e k h = failed
  Ensures-guard false e k h = h refl

  pub Ensures-bind {μ} :
      {B : Type μ} (m : Result E B) (k : B → Result E A)
      → ((b : B) → m ≡ ok b → Ensures P (k b))
      → Ensures P (m >>= k)
  Ensures-bind (ok b) k h = h b refl
  Ensures-bind (err e) k h = failed

  pub Ensures-value : {m : Result E A} {a : A} → Ensures P m → m ≡ ok a → P a
  Ensures-value (good {a = b} h) e = subst P (ok_injective e) h
  Ensures-value failed e = cc

  pub Ensures-if :
      (b : Bool) (x y : Result E A) → Ensures P x → Ensures P y → Ensures P (if b then x else y)
  Ensures-if true x y h k = h
  Ensures-if false x y h k = k

pub ensured {ℓ κ} :
    {E : Type 0} {A : Type ℓ} {P : A → Type κ} (m : Result E A)
    → ((a : A) → m ≡ ok a → P a)
    → Ensures P m
ensured (ok a) h = good (h a refl)
ensured (err e) h = failed

-- A result that is not this error.
pub data Avoids {ℓ} {E : Type 0} {A : Type ℓ} (bad : E) : Result E A → Type ℓ where
  fine : {a : A} → Avoids bad (ok a)
  threw : {e : E} → e ≢ bad → Avoids bad (err e)

module _ {ℓ} {E : Type 0} {A : Type ℓ} {bad : E} where
  pub Avoids-ne : {m : Result E A} → Avoids bad m → m ≢ err bad
  Avoids-ne fine e = cc
  Avoids-ne (threw n) e = n (err_injective e)
    where
      err_injective : {a b : E} → ◌≡◌ {A = Result E A} (err a) (err b) → a ≡ b
      err_injective h = cc

  pub Avoids-or_throw : (o : Option A) (e : E) → e ≢ bad → Avoids bad (or_throw o e)
  Avoids-or_throw none e n = threw n
  Avoids-or_throw (some a) e n = fine

  pub Avoids-guard :
      (b : Bool) (e : E) (k : Result E A) → e ≢ bad → Avoids bad k → Avoids bad (throw_if b e >> k)
  Avoids-guard true e k n h = threw n
  Avoids-guard false e k n h = h

  pub Avoids-bind {μ} :
      {B : Type μ} (m : Result E B) (k : B → Result E A)
      → Avoids bad m
      → ((b : B) → m ≡ ok b → Avoids bad (k b))
      → Avoids bad (m >>= k)
  Avoids-bind (ok b) k h g = g b refl
  Avoids-bind (err e) k (threw n) g = threw n

  pub Avoids-if :
      (b : Bool) (x y : Result E A) → Avoids bad x → Avoids bad y → Avoids bad (if b then x else y)
  Avoids-if true x y h k = h
  Avoids-if false x y h k = k

  pub Avoids-test :
      (b : Bool) (x y : Result E A)
      → (b ≡ true → Avoids bad x)
      → (b ≡ false → Avoids bad y)
      → Avoids bad (if b then x else y)
  Avoids-test true x y h k = h refl
  Avoids-test false x y h k = k refl

pub Avoids-map_result {ℓ κ} :
    {E : Type 0} {A : Type ℓ} {B : Type κ} {bad : E} (f : A → Result E B) (xs : List A)
    → ((a : A) → Avoids bad (f a))
    → Avoids bad (map_result f xs)
Avoids-map_result f [] h = fine
Avoids-map_result f (x ∷ xs) h =
    Avoids-bind (f x) _ (h x)
      λ y _. Avoids-bind (map_result f xs) _ (Avoids-map_result f xs h) λ ys _. fine
