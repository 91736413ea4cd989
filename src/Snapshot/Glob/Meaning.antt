-- ===== src/Snapshot/Glob/Meaning.antt =====
-- What a pattern says of a path: `*` stands for any bytes without a slash, `**` for any bytes, and
-- every other byte for itself.
use rewind_git_for_ai_agent.Prelude.{
  ℕ, List, [], ◌∷◌, ◌++◌, ◌≡◌, ◌≢◌, refl, ap, ◌↔◌, inl, inr, Bool, true, false, All, arith,
  Bool-cases,
}
use rewind_git_for_ai_agent.Bytes.{Bytes}
use rewind_git_for_ai_agent.Domain.Path.{slash}
use rewind_git_for_ai_agent.Snapshot.Glob.{glob_matches}
use rewind_git_for_ai_agent.Snapshot.Glob.Rows.{
  Token, literal, wildcard, tokens, may_cross, backtrack, glob_matches-backtrack,
}

abbrev pub Accepts : Token → Bytes → Type 0
Accepts (literal b) part = part ≡ b ∷ []
Accepts (wildcard true) part = Unit {0}
Accepts (wildcard false) part = All (λ c. c ≢ slash) part

-- The path falls into parts, one for each token, that the tokens accept.
abbrev pub Matches : List Token → Bytes → Type 0
Matches [] path = path ≡ []
Matches (t ∷ ts) path =
    (part : Bytes) × (rest : Bytes) × (path ≡ part ++ rest) × Accepts t part × Matches ts rest

Accepts-wildcard-cons :
    (recursive : Bool) (c : ℕ) (part : Bytes)
    → Accepts (wildcard recursive) (c ∷ part)
      ↔ ((may_cross recursive c ≡ true) × Accepts (wildcard recursive) part)
Accepts-wildcard-cons true c part = (λ h. (refl, tt), λ h. tt)
Accepts-wildcard-cons false c part =
    (λ h. (ground (arith, h.0), h.1), λ h. (ground (arith, h.0), h.1))

Accepts-wildcard-nil : (recursive : Bool) → Accepts (wildcard recursive) []
Accepts-wildcard-nil true = tt
Accepts-wildcard-nil false = tt

backtrack_sound : (ts : List Token) (path : Bytes) → backtrack ts path ≡ true → Matches ts path
unfolding backtrack
backtrack_sound [] [] h = refl
backtrack_sound [] (c ∷ path) h = cc
backtrack_sound (literal b ∷ ts) [] h = cc
backtrack_sound (literal b ∷ ts) (c ∷ path) h =
    (c ∷ [], path, refl, ground arith, backtrack_sound ts path (ground arith))
backtrack_sound (wildcard recursive ∷ ts) [] h =
    ([], [], refl, Accepts-wildcard-nil recursive, backtrack_sound ts [] h)
backtrack_sound (wildcard recursive ∷ ts) (c ∷ path) h =
    elim (Bool-cases (backtrack ts (c ∷ path))) [
      | inl e ↦
          ([], c ∷ path, refl, Accepts-wildcard-nil recursive, backtrack_sound ts (c ∷ path) e)
      | inr n ↦
          let (part, rest, e, a, m) =
            backtrack_sound (wildcard recursive ∷ ts) path (ground arith) in
          (
            c ∷ part,
            rest,
            ap (λ p. c ∷ p) e,
            (Accepts-wildcard-cons recursive c part).1 (ground arith, a),
            m,
          )
    ]

backtrack_wildcard :
    (recursive : Bool) (ts : List Token) (part rest : Bytes)
    → Accepts (wildcard recursive) part
    → backtrack ts rest ≡ true
    → backtrack (wildcard recursive ∷ ts) (part ++ rest) ≡ true
unfolding backtrack
backtrack_wildcard recursive ts [] [] a h = h
backtrack_wildcard recursive ts [] (c ∷ rest) a h = ground arith
backtrack_wildcard recursive ts (c ∷ part) rest a h =
    let (ok, a') = (Accepts-wildcard-cons recursive c part).0 a in
    ground (arith, ok, backtrack_wildcard recursive ts part rest a' h)

backtrack_literal :
    (b : ℕ) (ts : List Token) (rest : Bytes)
    → backtrack ts rest ≡ true
    → backtrack (literal b ∷ ts) (b ∷ rest) ≡ true
unfolding backtrack
backtrack_literal b ts rest h = ground arith

backtrack_complete : (ts : List Token) (path : Bytes) → Matches ts path → backtrack ts path ≡ true
backtrack_complete [] path h = rw h (unfold backtrack in refl)
backtrack_complete (literal b ∷ ts) path (part, rest, e, a, m) =
    rw (e, a) (backtrack_literal b ts rest (backtrack_complete ts rest m))
backtrack_complete (wildcard recursive ∷ ts) path (part, rest, e, a, m) =
    rw e (backtrack_wildcard recursive ts part rest a (backtrack_complete ts rest m))

-- A glob matches a path exactly when the path falls into parts, one for each byte, `*` and `**` of
-- the pattern in turn: the byte itself, a part without a slash, any part.
pub glob_matches_iff :
    (pattern path : Bytes) → (glob_matches pattern path ≡ true) ↔ Matches (tokens pattern) path
glob_matches_iff pattern path =
    rw glob_matches-backtrack
      (backtrack_sound (tokens pattern) path, backtrack_complete (tokens pattern) path)
