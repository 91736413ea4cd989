-- ===== src/Prelude/Results.antt =====
-- Rust's `Result<A, E>`, with the `?` operator as the bind of a `do` block.
use mathlib.Core.Path.{◌≡◌, refl}
use mathlib.Core.Logic.{◌↔◌, ◌⊎◌, inl, inr, ite}
use mathlib.Core.Bool.{Bool, true, false}
use native.Mathlib.Omega.{arith}

pub data Result {ℓ κ} (A : Type ℓ) (E : Type κ) : Type (ℓ ⊔ κ) where
  ok : A → Result A E
  err : E → Result A E

infixl 5 ◌>>=◌ ◌>>◌
abbrev pub ◌>>=◌ {ℓ κ μ} :
    {A : Type ℓ} {B : Type κ} {E : Type μ} → Result A E → (A → Result B E) → Result B E
ok value >>= next = next value
err problem >>= next = err problem

abbrev pub ◌>>◌ {κ μ} : {B : Type κ} {E : Type μ} → Result (Unit {0}) E → Result B E → Result B E
first >> second = first >>= λ done. second

-- `Result::map_err`
abbrev pub map_err {ℓ κ μ} :
    {A : Type ℓ} {E : Type κ} {F : Type μ} → (E → F) → Result A E → Result A F
map_err f (ok a) = ok a
map_err f (err e) = err (f e)

-- `if b { return Err(e) }`
abbrev pub fail_if {κ} : {E : Type κ} → Bool → E → Result (Unit {0}) E
fail_if true problem = err problem
fail_if false problem = ok tt

pub Result-cases {ℓ κ} :
    {A : Type ℓ} {E : Type κ} (r : Result A E) → ((a : A) × (r ≡ ok a)) ⊎ ((e : E) × (r ≡ err e))
Result-cases (ok a) = inl (a, refl)
Result-cases (err e) = inr (e, refl)

-- What the parts of a chain did when the whole of it succeeded.
pub ok_of_bind {ℓ κ μ} :
    {A : Type ℓ} {B : Type κ} {E : Type μ} (r : Result A E) (next : A → Result B E) (b : B)
    → (r >>= next) ≡ ok b
    → (a : A) × (r ≡ ok a) × (next a ≡ ok b)
ok_of_bind (ok a) next b h = (a, refl, h)
ok_of_bind (err e) next b h = cc

pub with_ok_of_bind {ℓ κ μ υ} :
    {A : Type ℓ} {B : Type κ} {E : Type μ} {Goal : Type υ} (r : Result A E) (next : A → Result B E)
    (b : B)
    → (r >>= next) ≡ ok b
    → ((a : A) → r ≡ ok a → next a ≡ ok b → Goal)
    → Goal
with_ok_of_bind r next b h use_parts = let (a, e, k) = ok_of_bind r next b h in use_parts a e k

pub ok_of_then {κ μ} :
    {B : Type κ} {E : Type μ} (r : Result (Unit {0}) E) (next : Result B E) (b : B)
    → (r >> next) ≡ ok b
    → (r ≡ ok tt) × (next ≡ ok b)
ok_of_then (ok tt) next b h = (refl, h)
ok_of_then (err e) next b h = cc

pub fail_if_iff {κ} : {E : Type κ} (b : Bool) (e : E) → (fail_if b e ≡ ok tt) ↔ (b ≡ false)
fail_if_iff b e = ground arith

-- A value that is returned where a decision holds, and an error where it does not.
pub ok_of_ite {ℓ κ μ} :
    {A : Type ℓ} {E : Type κ} {P : Type μ} (d : Dec P) (a : A) (e : E) (b : A)
    → ite d (ok a) (err e) ≡ ok b
    → P × (a ≡ b)
ok_of_ite (yes p) a e b h = (p, cc)
ok_of_ite (no p) a e b h = cc
