-- ===== src/Capture/Actions.antt =====
-- Methods with `&mut self` of crates/rewind-capture: functions from the state to the result and the
-- state behind it, which the caller sees after an error too. `?` is the bind of a `do` block.
use rewind_git_for_ai_agent.Prelude.{◌≡◌, refl, ◌⊎◌, inl, inr, Result, ok, err}
use rewind_git_for_ai_agent.Capture.Session.{CaptureError}

pub record Ran {ℓ κ} (S : Type ℓ) (A : Type κ) : Type (ℓ ⊔ κ) where
  pub result : Result A CaptureError
  pub state : S

abbrev pub Action {ℓ κ} : Type ℓ → Type κ → Type (ℓ ⊔ κ)
Action S A = S → Ran S A

abbrev pub return {ℓ κ} : {S : Type ℓ} {A : Type κ} → A → Action S A
return a s = record { result = ok a; state = s }

abbrev pub throw {ℓ κ} : {S : Type ℓ} {A : Type κ} → CaptureError → Action S A
throw e s = record { result = err e; state = s }

abbrev pub of_result {ℓ κ} : {S : Type ℓ} {A : Type κ} → Result A CaptureError → Action S A
of_result r s = record { result = r; state = s }

-- What goes on behind a result.
abbrev pub resume {ℓ κ μ} :
    {S : Type ℓ} {A : Type κ} {B : Type μ} → Result A CaptureError → (A → Action S B) → Action S B
resume (ok a) next s = next a s
resume (err e) next s = record { result = err e; state = s }

infixl 5 ◌>>=◌ ◌>>◌
abbrev pub ◌>>=◌ {ℓ κ μ} :
    {S : Type ℓ} {A : Type κ} {B : Type μ} → Action S A → (A → Action S B) → Action S B
(first >>= next) s = resume (first s).result next (first s).state

abbrev pub ◌>>◌ {ℓ κ} : {S : Type ℓ} {B : Type κ} → Action S (Unit {0}) → Action S B → Action S B
(first >> next) s = resume (first s).result (λ done. next) (first s).state

-- What a state keeps through an action, whatever its result is.
abbrev pub Keeps {ℓ κ μ} : {S : Type ℓ} {A : Type κ} → (S → Type μ) → Action S A → Type (ℓ ⊔ μ)
Keeps {S = S} P action = (s : S) → P s → P (action s).state

module _ {ℓ κ μ υ} {S : Type ℓ} {A : Type κ} {B : Type μ} (P : S → Type υ) where
  resume-Keeps :
      (r : Result A CaptureError) (next : A → Action S B) (s : S)
      → ((a : A) → Keeps P (next a))
      → P s
      → P (resume r next s).state
  resume-Keeps (ok a) next s k p = k a s p
  resume-Keeps (err e) next s k p = p

  pub bind-Keeps :
      (first : Action S A) (next : A → Action S B)
      → Keeps P first
      → ((a : A) → Keeps P (next a))
      → Keeps P (first >>= next)
  bind-Keeps first next f k s p = resume-Keeps (first s).result next (first s).state k (f s p)

  resume-Keeps-known :
      (r : Result A CaptureError) (next : A → Action S B) (s : S)
      → ((a : A) → r ≡ ok a → P (next a s).state)
      → P s
      → P (resume r next s).state
  resume-Keeps-known (ok a) next s k p = k a refl
  resume-Keeps-known (err e) next s k p = p

  -- The same, where what goes on relies on what the first action returned.
  pub bind-Keeps-known :
      (first : Action S A) (next : A → Action S B)
      → Keeps P first
      → ((s : S) (a : A)
          → (first s).result ≡ ok a
          → P (first s).state
          → P (next a (first s).state).state)
      → Keeps P (first >>= next)
  bind-Keeps-known first next f k s p =
      resume-Keeps-known (first s).result next (first s).state (λ a e. k s a e (f s p)) (f s p)

module _ {ℓ κ μ} {S : Type ℓ} {A : Type κ} {B : Type μ} where
  -- What goes on behind an action that the whole returned from.
  pub resume-eq-ok :
      (r : Result A CaptureError) (next : A → Action S B) (s : S) (b : B)
      → (resume r next s).result ≡ ok b
      → (a : A) × (r ≡ ok a) × (resume r next s ≡ next a s)
  resume-eq-ok (ok a) next s b h = (a, refl, refl)
  resume-eq-ok (err e) next s b h = cc h

  -- Where the error of the whole comes from.
  pub resume-eq-err :
      (r : Result A CaptureError) (next : A → Action S B) (s : S) (problem : CaptureError)
      → (resume r next s).result ≡ err problem
      → ((r ≡ err problem) × ((resume r next s).state ≡ s))
        ⊎ ((a : A) × (r ≡ ok a) × (resume r next s ≡ next a s))
  resume-eq-err (ok a) next s problem h = inr (a, refl, refl)
  resume-eq-err (err e) next s problem h = inl (cc h, refl)

  -- What holds of an action behind a result: for its error, and for what goes on.
  pub resume-holds {υ} :
      (P : Ran S B → Type υ) (r : Result A CaptureError) (next : A → Action S B) (s : S)
      → ((problem : CaptureError)
          → r ≡ err problem
          → P (record { result = err problem; state = s }))
      → ((a : A) → r ≡ ok a → P (next a s))
      → P (resume r next s)
  resume-holds P (ok a) next s failed went = went a refl
  resume-holds P (err e) next s failed went = failed e refl
