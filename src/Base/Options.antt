-- ===== src/Base/Options.antt =====
-- Code that may stop at a failed `assert` or at a fault, `none`.
use mathlib.Core.Path.{◌≡◌, refl, subst}
use mathlib.Core.Bool.{Bool, true, false}
use mathlib.Core.Option.{Option, none, some, some-injective}

infixl 5 ◌>>=◌ ◌>>◌
abbrev pub ◌>>=◌ {ℓ κ} : {A : Type ℓ} {B : Type κ} → Option A → (A → Option B) → Option B
none >>= f = none
some a >>= f = f a

abbrev pub ◌>>◌ {ℓ} : {B : Type ℓ} → Option (Unit {0}) → Option B → Option B
m >> k = m >>= λ _. k

abbrev pub assert : Bool → Option (Unit {0})
assert true = some tt
assert false = none

pub assert_lem : (b : Bool) → b ≡ true → assert b ≡ some tt
assert_lem true e = refl
assert_lem false e = cc

-- A test of a pointer or an iterator: what happens without one, and with one.
abbrev pub found {ℓ κ} : {A : Type ℓ} {B : Type κ} → Option A → B → (A → B) → B
found none missing use_it = missing
found (some a) missing use_it = use_it a

-- What holds in both cases holds of the test.
pub found_cases {ℓ κ μ} :
    {A : Type ℓ} {B : Type κ} (P : B → Type μ) (o : Option A) {x : B} {f : A → B}
    → (o ≡ none → P x)
    → ((a : A) → o ≡ some a → P (f a))
    → P (found o x f)
found_cases P none missing_case some_case = missing_case refl
found_cases P (some a) missing_case some_case = some_case a refl

-- What holds of the result, if the code does not stop.
pub record Always {ℓ κ} {A : Type ℓ} (P : A → Type κ) (o : Option A) : Type (ℓ ⊔ κ) where
  pub of_result : (a : A) → o ≡ some a → P a

pub Always-none {ℓ κ} : {A : Type ℓ} (P : A → Type κ) → Always P none
Always-none P = record { of_result = λ a e. absurd cc }

pub Always-here {ℓ κ} : {A : Type ℓ} (P : A → Type κ) (a : A) → P a → Always P (some a)
Always-here P a h = record { of_result = λ b e. subst P (some-injective a b e) h }

pub Always-bind {ℓ κ μ} :
    {A : Type ℓ} {B : Type κ} (P : B → Type μ) (o : Option A) {f : A → Option B}
    → ((a : A) → o ≡ some a → Always P (f a))
    → Always P (o >>= f)
Always-bind P none h = Always-none P
Always-bind P (some a) h = h a refl

pub Always-assert {ℓ κ} :
    {B : Type ℓ} (P : B → Type κ) (b : Bool) {k : Option B}
    → (b ≡ true → Always P k)
    → Always P (assert b >> k)
Always-assert P true h = h refl
Always-assert P false h = Always-none P

pub Always-map {ℓ κ μ} :
    {A : Type ℓ} {P : A → Type κ} {Q : A → Type μ} {o : Option A}
    → ((a : A) → P a → Q a)
    → Always P o
    → Always Q o
Always-map f h = record { of_result = λ a e. f a (h.of_result a e) }
