-- ===== src/Snapshot/Glob.antt =====
-- `glob_matches` and `IgnorePattern` of crates/rewind-snapshot/src/scan.rs: anchored globs over the
-- bytes of a path, matched by one row of a table for each part of the pattern.
pub mod Rows
pub mod Meaning
use rewind_git_for_ai_agent.Prelude.{
  ℕ, zero, suc, List, [], ◌∷◌, length, get_or, Bool, true, false, not, ◌&&◌, ◌||◌, ◌==◌, Result, ok,
  err, ◌>>=◌, map_err,
}
use rewind_git_for_ai_agent.Bytes.{Bytes}
use rewind_git_for_ai_agent.Domain.Path.{SnapshotPath, SnapshotPathError, from_str, slash}

abbrev pub star : ℕ
star = b'*'

abbrev pub replicate_false : ℕ → List Bool
replicate_false zero = []
replicate_false (suc n) = false ∷ replicate_false n

-- The loop `for offset in 1..=path.len()` of a wildcard: `left` is `current[offset - 1]`, and the
-- lists are `path[offset - 1..]` and `previous[offset..]`.
unfoldable pub wildcard_rest : Bool → Bool → Bytes → List Bool → List Bool
wildcard_rest recursive left [] previous = []
wildcard_rest recursive left (c ∷ path) [] = []
wildcard_rest recursive left (c ∷ path) (up ∷ previous) =
    let here = up || (left && (recursive || not (c == slash))) in
    here ∷ wildcard_rest recursive here path previous

unfoldable pub wildcard_row : Bool → Bytes → List Bool → List Bool
wildcard_row recursive path [] = []
wildcard_row recursive path (first ∷ previous) = first ∷ wildcard_rest recursive first path previous

-- The loop of a plain byte, over `path[offset - 1..]` and `previous[offset - 1..]`.
unfoldable pub literal_rest : ℕ → Bytes → List Bool → List Bool
literal_rest b [] previous = []
literal_rest b (c ∷ path) [] = []
literal_rest b (c ∷ path) (diagonal ∷ previous) =
    (diagonal && b == c) ∷ literal_rest b path previous

unfoldable pub literal_row : ℕ → Bytes → List Bool → List Bool
literal_row b path previous = false ∷ literal_rest b path previous

-- The row for one step of the `while` loop at the byte `b`.
abbrev pub step_row : Bool → Bool → ℕ → Bytes → List Bool → List Bool
step_row true recursive b path previous = wildcard_row recursive path previous
step_row false recursive b path previous = literal_row b path previous

-- The loop `while index < pattern.len()`; the list is `pattern[index..]`.
unfoldable pub glob_loop : Bytes → Bytes → List Bool → List Bool
glob_loop path [] previous = previous
glob_loop path (b ∷ []) previous = step_row (b == star) false b path previous
glob_loop path (b ∷ next ∷ pattern) previous = elim (b == star && next == star) [
  | true ↦ glob_loop path pattern (wildcard_row true path previous)
  | false ↦ glob_loop path (next ∷ pattern) (step_row (b == star) false b path previous)
]

unfoldable pub glob_matches : Bytes → Bytes → Bool
unfolding glob_loop
glob_matches pattern path =
    get_or (glob_loop path pattern (true ∷ replicate_false (length path))) (length path) false

pub record IgnorePattern : Type 0 where
  pub text : Bytes

-- `IgnorePattern::from_str`; the error is `SnapshotError::InvalidPath`, with the path's error.
unfoldable pub parse_pattern : Bytes → Result IgnorePattern SnapshotPathError
parse_pattern value = do path ← from_str value; ok (record { text = value })

-- `IgnorePattern::matches`
unfoldable pub matches : IgnorePattern → SnapshotPath → Bool
matches pattern path = glob_matches pattern.text path.as_str
