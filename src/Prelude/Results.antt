-- ===== src/Prelude/Results.antt =====
-- Rust's `Result`, with two outcomes more: a panic, and the end of the model's fuel.
use mathlib.Core.Path.{◌≡◌, refl, ap}
use mathlib.Core.Logic.{◌⊎◌, inl, inr}
use mathlib.Core.Option.{Option, none, some}

-- `out_of_fuel` is no outcome of the program: the model's recursion was cut short.
pub data Result {ℓ κ} (E : Type ℓ) (A : Type κ) : Type (ℓ ⊔ κ) where
  ok : A → Result E A
  err : E → Result E A
  panic : Result E A
  out_of_fuel : Result E A

-- The `?` operator.
infixl 5 ◌>>=◌ ◌>>◌
abbrev pub ◌>>=◌ {ℓ κ μ} :
    {E : Type ℓ} {A : Type κ} {B : Type μ} → Result E A → (A → Result E B) → Result E B
ok a >>= f = f a
err e >>= f = err e
panic >>= f = panic
out_of_fuel >>= f = out_of_fuel

abbrev pub ◌>>◌ {ℓ κ μ} :
    {E : Type ℓ} {A : Type κ} {B : Type μ} → Result E A → Result E B → Result E B
m >> k = m >>= λ _. k

abbrev pub map_err {ℓ κ μ} :
    {E : Type ℓ} {F : Type κ} {A : Type μ} → (E → F) → Result E A → Result F A
map_err f (ok a) = ok a
map_err f (err e) = err (f e)
map_err f panic = panic
map_err f out_of_fuel = out_of_fuel

abbrev pub ok_or {ℓ κ} : {E : Type ℓ} {A : Type κ} → E → Option A → Result E A
ok_or e none = err e
ok_or e (some a) = ok a

-- Inversion of a successful `?`.
pub >>=-eq-ok {ℓ κ μ} :
    {E : Type ℓ} {A : Type κ} {B : Type μ} {end : B} (first : Result E A)
    (continue : A → Result E B) (both : (first >>= continue) ≡ ok end)
    → (mid : A) × (first ≡ ok mid) × (continue mid ≡ ok end)
>>=-eq-ok out_of_fuel continue both = cc
>>=-eq-ok panic continue both = cc
>>=-eq-ok (err e) continue both = cc
>>=-eq-ok (ok mid) continue both = (mid, refl, both)

pub map_err-eq-ok {ℓ κ μ} :
    {E : Type ℓ} {F : Type κ} {A : Type μ} (g : E → F) (m : Result E A) {a : A}
    → map_err g m ≡ ok a
    → m ≡ ok a
map_err-eq-ok g (ok a) h = cc
map_err-eq-ok g (err e) h = cc
map_err-eq-ok g panic h = cc
map_err-eq-ok g out_of_fuel h = cc

pub ok_or-eq-ok {ℓ κ} :
    {E : Type ℓ} {A : Type κ} (e : E) (o : Option A) {a : A} → ok_or e o ≡ ok a → o ≡ some a
ok_or-eq-ok e none h = cc
ok_or-eq-ok e (some a) h = cc

-- The same for a goal, with the parts as variables.
pub >>=-open {ℓ κ μ ν} :
    {E : Type ℓ} {A : Type κ} {B : Type μ} {C : Type ν} (m : Result E A) (f : A → Result E B)
    {b : B}
    → (m >>= f) ≡ ok b
    → ((a : A) → m ≡ ok a → f a ≡ ok b → C)
    → C
>>=-open (ok a) f h k = k a refl h
>>=-open (err e) f h k = cc
>>=-open panic f h k = cc
>>=-open out_of_fuel f h k = cc

abbrev value_or {ℓ κ} : {E : Type ℓ} {A : Type κ} → A → Result E A → A
value_or a (ok x) = x
value_or a _ = a

pub ok-inj {ℓ κ} : {E : Type ℓ} {A : Type κ} {a b : A} → ◌≡◌ {A = Result E A} (ok a) (ok b) → a ≡ b
ok-inj {a = a} h = ap (value_or a) h

pub Result-cases {ℓ κ} :
    {E : Type ℓ} {A : Type κ} (r : Result E A)
    → ((a : A) × (r ≡ ok a)) ⊎ ((e : E) × (r ≡ err e)) ⊎ (r ≡ panic) ⊎ (r ≡ out_of_fuel)
Result-cases (ok a) = inl (a, refl)
Result-cases (err e) = inr (inl (e, refl))
Result-cases panic = inr (inr (inl refl))
Result-cases out_of_fuel = inr (inr (inr refl))
