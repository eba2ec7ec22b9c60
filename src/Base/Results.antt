-- ===== src/Base/Results.antt =====
-- The ways in which a Rust function ends: `Ok`, `Err`, or a panic (a failed assertion, an `unwrap` of
-- `None`, a division by zero).
use mathlib.Core.Path.{◌≡◌, refl}
use mathlib.Core.Logic.{◌≢◌}
use mathlib.Core.Bool.{Bool, true, false}
use mathlib.Core.Option.{Option, none, some}

pub data Exec {ℓ κ} (E : Type ℓ) (A : Type κ) : Type (ℓ ⊔ κ) where
  ok : A → Exec E A
  err : E → Exec E A
  panic : Exec E A

infixl 5 ◌>>=◌ ◌>>◌
abbrev pub ◌>>=◌ {ℓ κ μ} :
    {E : Type ℓ} {A : Type κ} {B : Type μ} → Exec E A → (A → Exec E B) → Exec E B
ok a >>= f = f a
err e >>= f = err e
panic >>= f = panic

abbrev pub ◌>>◌ {ℓ κ} : {E : Type ℓ} {B : Type κ} → Exec E (Unit {0}) → Exec E B → Exec E B
m >> k = m >>= λ _. k

-- `assert!`
abbrev pub assert {ℓ} : {E : Type ℓ} → Bool → Exec E (Unit {0})
assert true = ok tt
assert false = panic

-- `if !b { return Err(e) }`
abbrev pub guard {ℓ} : {E : Type ℓ} → Bool → E → Exec E (Unit {0})
guard true e = ok tt
guard false e = err e

-- `Option::ok_or`
abbrev pub ok_or {ℓ κ} : {E : Type ℓ} {A : Type κ} → Option A → E → Exec E A
ok_or (some a) e = ok a
ok_or none e = err e

-- `Option::unwrap`
abbrev pub unwrap {ℓ κ} : {E : Type ℓ} {A : Type κ} → Option A → Exec E A
unwrap (some a) = ok a
unwrap none = panic

-- `Result::map_err`, and the conversion that `?` makes.
abbrev pub map_err {ℓ κ μ} : {E : Type ℓ} {F : Type κ} {A : Type μ} → (E → F) → Exec E A → Exec F A
map_err f (ok a) = ok a
map_err f (err e) = err (f e)
map_err f panic = panic

-- A chain that succeeds: its first step did, and so did the rest.
pub >>=-ok {ℓ κ μ} :
    {E : Type ℓ} {A : Type κ} {B : Type μ} (m : Exec E A) (f : A → Exec E B) {b : B}
    → (m >>= f) ≡ ok b
    → (a : A) × (m ≡ ok a) × (f a ≡ ok b)
>>=-ok (ok a) f h = (a, refl, h)
>>=-ok (err e) f h = cc
>>=-ok panic f h = cc

pub guard-ok {ℓ} : {E : Type ℓ} (b : Bool) (e : E) → guard b e ≡ ok tt → b ≡ true
guard-ok true e h = refl
guard-ok false e h = cc

pub ok_or-ok {ℓ κ} :
    {E : Type ℓ} {A : Type κ} (o : Option A) (e : E) {a : A} → ok_or o e ≡ ok a → o ≡ some a
ok_or-ok (some x) e h = cc
ok_or-ok none e h = cc

pub map_err-ok {ℓ κ μ} :
    {E : Type ℓ} {F : Type κ} {A : Type μ} (f : E → F) (m : Exec E A) {a : A}
    → map_err f m ≡ ok a
    → m ≡ ok a
map_err-ok f (ok x) h = cc
map_err-ok f (err e) h = cc
map_err-ok f panic h = cc

-- A chain does not panic if none of its steps does.
pub >>=-returns {ℓ κ μ} :
    {E : Type ℓ} {A : Type κ} {B : Type μ} (m : Exec E A) (f : A → Exec E B)
    → m ≢ panic
    → ((a : A) → m ≡ ok a → f a ≢ panic)
    → (m >>= f) ≢ panic
>>=-returns (ok a) f h g = g a refl
>>=-returns (err e) f h g = λ x. cc
>>=-returns panic f h g = absurd (h refl)

pub ok-returns {ℓ κ} : {E : Type ℓ} {A : Type κ} {a : A} → ◌≢◌ {A = Exec E A} (ok a) panic
ok-returns = λ x. cc

pub err-returns {ℓ κ} : {E : Type ℓ} {A : Type κ} {e : E} → ◌≢◌ {A = Exec E A} (err e) panic
err-returns = λ x. cc

pub guard-returns {ℓ} : {E : Type ℓ} (b : Bool) (e : E) → guard b e ≢ panic
guard-returns true e = λ x. cc
guard-returns false e = λ x. cc

pub ok_or-returns {ℓ κ} : {E : Type ℓ} {A : Type κ} (o : Option A) (e : E) → ok_or o e ≢ panic
ok_or-returns (some a) e = λ x. cc
ok_or-returns none e = λ x. cc

pub map_err-returns {ℓ κ μ} :
    {E : Type ℓ} {F : Type κ} {A : Type μ} (f : E → F) (m : Exec E A)
    → m ≢ panic
    → map_err f m ≢ panic
map_err-returns f (ok x) h = λ y. cc
map_err-returns f (err e) h = λ y. cc
map_err-returns f panic h = absurd (h refl)
