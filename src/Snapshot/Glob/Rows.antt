-- ===== src/Snapshot/Glob/Rows.antt =====
-- The rows of the table of `glob_matches` beside a matcher that backtracks.
use rewind_git_for_ai_agent.Prelude.{
  ℕ, zero, suc, ◌+◌, List, [], ◌∷◌, length, get_or, ◌≡◌, refl, ap, ◌∙◌, Bool, true, false, not,
  ◌&&◌, ◌||◌, ◌==◌, arith, Bool-cases, inl, inr,
}
use rewind_git_for_ai_agent.Bytes.{Bytes}
use rewind_git_for_ai_agent.Domain.Path.{slash}
use rewind_git_for_ai_agent.Snapshot.Glob.{
  star, replicate_false, wildcard_rest, wildcard_row, literal_rest, literal_row, step_row,
  glob_loop, glob_matches,
}

-- A pattern is a list of bytes to be met as they are, of `*` and of `**`.
pub data Token : Type 0 where
  literal : ℕ → Token
  wildcard : (recursive : Bool) → Token

abbrev pub single_if : Bool → ℕ → Token
single_if true b = wildcard false
single_if false b = literal b

abbrev pub single : ℕ → Token
single b = single_if (b == star) b

unfoldable pub tokens : Bytes → List Token
tokens [] = []
tokens (b ∷ []) = single b ∷ []
tokens (b ∷ next ∷ pattern) = elim (b == star && next == star) [
  | true ↦ wildcard true ∷ tokens pattern
  | false ↦ single b ∷ tokens (next ∷ pattern)
]

abbrev pub may_cross : Bool → ℕ → Bool
may_cross recursive c = recursive || not (c == slash)

-- The backtracking matcher.
unfoldable pub backtrack : List Token → Bytes → Bool
backtrack [] [] = true
backtrack [] (c ∷ path) = false
backtrack (literal b ∷ ts) [] = false
backtrack (literal b ∷ ts) (c ∷ path) = b == c && backtrack ts path
backtrack (wildcard recursive ∷ ts) [] = backtrack ts []
backtrack (wildcard recursive ∷ ts) (c ∷ path) =
    backtrack ts (c ∷ path) || (may_cross recursive c && backtrack (wildcard recursive ∷ ts) path)

-- Whether the rest of the pattern matches what follows some offset that the row marks.
reach : List Bool → List Token → Bytes → Bool
reach [] ts path = false
reach (r ∷ rs) ts [] = r && backtrack ts []
reach (r ∷ rs) ts (c ∷ path) = (r && backtrack ts (c ∷ path)) || reach rs ts path

module _ (ts : List Token) where
  reach_or :
      (a b : Bool) (rs : List Bool) (path : Bytes)
      → reach ((a || b) ∷ rs) ts path ≡ (b && backtrack ts path) || reach (a ∷ rs) ts path
  unfolding reach
  reach_or a b rs [] = ground arith
  reach_or a b rs (c ∷ path) = ground arith

module _ (ts : List Token) where
  reach-wildcard_rest :
      (recursive left : Bool) (path : Bytes) (previous : List Bool)
      → length previous ≡ length path
      → reach (left ∷ wildcard_rest recursive left path previous) ts path
        ≡ reach (left ∷ previous) (wildcard recursive ∷ ts) path
  unfolding reach wildcard_rest backtrack
  reach-wildcard_rest recursive left [] previous h = ground arith
  reach-wildcard_rest recursive left (c ∷ path) [] h = absurd (omega arith)
  reach-wildcard_rest recursive left (c ∷ path) (up ∷ previous) h =
      let here = up || (left && may_cross recursive c) in
      ground (
        arith,
        reach-wildcard_rest recursive here path previous (omega arith),
        reach_or (wildcard recursive ∷ ts) up (left && may_cross recursive c) previous path,
      )

  reach-literal_row :
      (b : ℕ) (path : Bytes) (previous : List Bool)
      → length previous ≡ length path + 1
      → reach (literal_row b path previous) ts path ≡ reach previous (literal b ∷ ts) path
  unfolding reach literal_row literal_rest backtrack
  reach-literal_row b [] (r ∷ previous) h = ground arith
  reach-literal_row b (c ∷ path) (r ∷ previous) h = ground (
    arith,
    reach-literal_row b path previous (omega arith),
    reach_or ts false (r && b == c) (literal_rest b path previous) path,
  )
  reach-literal_row b path [] h = absurd (omega arith)

  reach-wildcard_row :
      (recursive : Bool) (path : Bytes) (previous : List Bool)
      → length previous ≡ length path + 1
      → reach (wildcard_row recursive path previous) ts path
        ≡ reach previous (wildcard recursive ∷ ts) path
  unfolding wildcard_row
  reach-wildcard_row recursive path [] h = absurd (omega arith)
  reach-wildcard_row recursive path (first ∷ previous) h =
      reach-wildcard_rest recursive first path previous (omega arith)

  reach-step_row :
      (wild : Bool) (b : ℕ) (path : Bytes) (previous : List Bool)
      → length previous ≡ length path + 1
      → reach (step_row wild false b path previous) ts path
        ≡ reach previous (single_if wild b ∷ ts) path
  reach-step_row true b path previous h = reach-wildcard_row false path previous h
  reach-step_row false b path previous h = reach-literal_row b path previous h

length-wildcard_rest :
    (recursive left : Bool) (path : Bytes) (previous : List Bool)
    → length previous ≡ length path
    → length (wildcard_rest recursive left path previous) ≡ length path
unfolding wildcard_rest
length-wildcard_rest recursive left [] previous h = refl
length-wildcard_rest recursive left (c ∷ path) [] h = absurd (omega arith)
length-wildcard_rest recursive left (c ∷ path) (up ∷ previous) h = ap suc (
    length-wildcard_rest recursive (up || (left && may_cross recursive c)) path previous
      (omega arith))

length-literal_rest :
    (b : ℕ) (path : Bytes) (previous : List Bool)
    → length previous ≡ length path + 1
    → length (literal_rest b path previous) ≡ length path
unfolding literal_rest
length-literal_rest b [] previous h = refl
length-literal_rest b (c ∷ path) [] h = absurd (omega arith)
length-literal_rest b (c ∷ path) (r ∷ previous) h =
    ap suc (length-literal_rest b path previous (omega arith))

module _ (path : Bytes) (previous : List Bool) (full : length previous ≡ length path + 1) where
  length-wildcard_row :
      (recursive : Bool) → length (wildcard_row recursive path previous) ≡ length path + 1
  length-wildcard_row recursive = go previous full
    where
      go :
          (row : List Bool)
          → length row ≡ length path + 1
          → length (wildcard_row recursive path row) ≡ length path + 1
      go [] h = absurd (omega arith)
      go (first ∷ row) h =
          unfold wildcard_row in
          omega (arith, length-wildcard_rest recursive first path row (omega arith))

  length-step_row :
      (wild : Bool) (b : ℕ) → length (step_row wild false b path previous) ≡ length path + 1
  length-step_row true b = length-wildcard_row false
  length-step_row false b =
      unfold literal_row in omega (arith, length-literal_rest b path previous full)

-- The last place of the row is the only one that a finished pattern can use.
reach_end :
    (path : Bytes) (row : List Bool)
    → length row ≡ length path + 1
    → get_or row (length path) false ≡ reach row [] path
unfolding reach backtrack
reach_end path [] h = absurd (omega arith)
reach_end [] (r ∷ rs) h = ground arith
reach_end (c ∷ path) (r ∷ rs) h = ground (arith, reach_end path rs (omega arith))

reach-glob_loop :
    (path pattern : Bytes) (previous : List Bool)
    → length previous ≡ length path + 1
    → get_or (glob_loop path pattern previous) (length path) false
      ≡ reach previous (tokens pattern) path
unfolding glob_loop tokens
reach-glob_loop path [] previous h = reach_end path previous h
reach-glob_loop path (b ∷ []) previous h =
    reach_end path (step_row (b == star) false b path previous)
      (length-step_row path previous h (b == star) b)
    ∙ reach-step_row [] (b == star) b path previous h
reach-glob_loop path (b ∷ next ∷ pattern) previous h =
    elim (Bool-cases (b == star && next == star)) [
      | inl e ↦
          rw (e, glob_loop, tokens)
            (reach-glob_loop path pattern (wildcard_row true path previous)
                (length-wildcard_row path previous h true)
              ∙ reach-wildcard_row (tokens pattern) true path previous h)
      | inr n ↦
          rw (n, glob_loop, tokens)
            (reach-glob_loop path (next ∷ pattern) (step_row (b == star) false b path previous)
                (length-step_row path previous h (b == star) b)
              ∙ reach-step_row (tokens (next ∷ pattern)) (b == star) b path previous h)
    ]

reach-replicate_false :
    (ts : List Token) (path : Bytes) (n : ℕ) → reach (replicate_false n) ts path ≡ false
unfolding reach
reach-replicate_false ts path zero = refl
reach-replicate_false ts [] (suc n) = refl
reach-replicate_false ts (c ∷ path) (suc n) = reach-replicate_false ts path n

reach_start :
    (ts : List Token) (path : Bytes)
    → reach (true ∷ replicate_false (length path)) ts path ≡ backtrack ts path
unfolding reach
reach_start ts [] = refl
reach_start ts (c ∷ path) = ground (arith, reach-replicate_false ts path (suc (length path)))

length-replicate_false : (n : ℕ) → length (replicate_false n) ≡ n
length-replicate_false zero = refl
length-replicate_false (suc n) = ap suc (length-replicate_false n)

pub glob_matches-backtrack :
    (pattern path : Bytes) → glob_matches pattern path ≡ backtrack (tokens pattern) path
unfolding glob_matches
glob_matches-backtrack pattern path =
    reach-glob_loop path pattern (true ∷ replicate_false (length path))
      (omega (arith, length-replicate_false (length path)))
    ∙ reach_start (tokens pattern) path
