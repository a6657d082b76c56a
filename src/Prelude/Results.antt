-- ===== src/Prelude/Results.antt =====
-- Python's exceptions as a result type. `err` carries what is raised.
use aero_bot.Prelude.{
  Bool, true, false, Option, none, some, ◌≡◌, refl, ◌⊎◌, inl, inr, ap, subst, if◌then◌else◌,
}

-- The exceptions that the modelled code raises itself, or lets through from the constructor of a
-- validated model and from decimal division.
pub data Error : Type 0 where
  value_error validation_error division_by_zero invalid_operation integrity_error state_error
        history_unavailable_error :
      Error

-- What a call returns or raises.
pub data Result {ℓ} (Value : Type ℓ) : Type ℓ where
  ok : Value → Result Value
  err : Error → Result Value

-- What a normal return satisfies; a raise is allowed.
abbrev pub Ensures {ℓ κ} : {A : Type ℓ} → Result A → (A → Type κ) → Type κ
Ensures (ok a) P = P a
Ensures (err _) P = Unit

-- A normal return that satisfies `P`; a raise is not allowed.
abbrev pub Returns {ℓ} : {A : Type ℓ} → Result A → (A → Type 0) → Type 0
Returns (ok a) P = P a
Returns (err _) P = ⊥

abbrev pub or_raise {ℓ} : {A : Type ℓ} → Option A → Error → Result A
or_raise none e = err e
or_raise (some a) e = ok a

-- `if c: raise e`
abbrev pub raise_if : Bool → Error → Result (Unit {0})
raise_if true raised = err raised
raise_if false _ = ok tt

-- `if not c: raise e`, and the value.
abbrev pub checked {ℓ} : {A : Type ℓ} → Bool → Error → A → Result A
checked true _ a = ok a
checked false raised _ = err raised

-- The rest of a function, after a call that may raise.
infixl 5 ◌>>=◌ ◌>>◌
abbrev pub ◌>>=◌ {μ ν} :
    {Value : Type μ} {Next : Type ν} → Result Value → (Value → Result Next) → Result Next
err raised >>= _ = err raised
ok value >>= rest = rest value

abbrev pub ◌>>◌ {ν} : {Next : Type ν} → Result (Unit {0}) → Result Next → Result Next
err raised >> _ = err raised
ok _ >> rest = rest

pub Result-cases {ℓ} :
    {A : Type ℓ} (r : Result A) → ((a : A) × (r ≡ ok a)) ⊎ ((e : Error) × (r ≡ err e))
Result-cases (ok a) = inl (a, refl)
Result-cases (err e) = inr (e, refl)

value_or {ℓ} : {A : Type ℓ} → A → Result A → A
value_or d (ok a) = a
value_or d (err _) = d

pub ok-injective {ℓ} : {A : Type ℓ} {a b : A} → ok a ≡ ok b → a ≡ b
unfolding value_or
ok-injective {a} e = ap (value_or a) e

-- The rules of `Ensures`.
pub Ensures-bind {ℓ κ μ} :
    {A : Type ℓ} {B : Type κ} (m : Result A) (f : A → Result B) (P : B → Type μ)
    → ((a : A) → m ≡ ok a → Ensures (f a) P)
    → Ensures (m >>= f) P
Ensures-bind (ok a) f P h = h a refl
Ensures-bind (err e) f P h = tt

pub Ensures-ok {ℓ μ} :
    {A : Type ℓ} (m : Result A) (P : A → Type μ) {a : A} → m ≡ ok a → Ensures m P → P a
Ensures-ok (ok b) P e h = subst P (ok-injective e) h
Ensures-ok (err e) P h _ = cc

pub Ensures-map {ℓ κ μ} :
    {A : Type ℓ} (m : Result A) (P : A → Type κ) (Q : A → Type μ)
    → ((a : A) → P a → Q a)
    → Ensures m P
    → Ensures m Q
Ensures-map (ok a) P Q f h = f a h
Ensures-map (err e) P Q f h = tt

pub Ensures-if {ℓ μ} :
    {A : Type ℓ} (c : Bool) (m n : Result A) (P : A → Type μ)
    → (c ≡ true → Ensures m P)
    → (c ≡ false → Ensures n P)
    → Ensures (if c then m else n) P
Ensures-if true m n P h k = h refl
Ensures-if false m n P h k = k refl

pub or_raise-eq_ok {ℓ} :
    {A : Type ℓ} (o : Option A) (e : Error) {a : A} → or_raise o e ≡ ok a → o ≡ some a
or_raise-eq_ok none e h = cc
or_raise-eq_ok (some b) e h = ap some (ok-injective h)

pub Ensures-checked {ℓ μ} :
    {A : Type ℓ} (c : Bool) (e : Error) (a : A) (P : A → Type μ)
    → (c ≡ true → P a)
    → Ensures (checked c e a) P
Ensures-checked true e a P h = h refl
Ensures-checked false e a P h = tt

pub Ensures-guard {ℓ μ} :
    {A : Type ℓ} (c : Bool) (e : Error) (n : Result A) (P : A → Type μ)
    → (c ≡ false → Ensures n P)
    → Ensures (raise_if c e >> n) P
Ensures-guard true e n P h = tt
Ensures-guard false e n P h = h refl
