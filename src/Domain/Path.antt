-- ===== src/Domain/Path.antt =====
-- crates/rewind-domain/src/snapshot.rs: `SnapshotPath`, a normalized relative path with `/`
-- separators, and `from_str`, the one way to make one.
pub mod Normal
pub mod Walk
use rewind_git_for_ai_agent.Prelude.{
  ℕ, zero, suc, List, [], ◌∷◌, length, ◌≡◌, refl, ltb, if◌then◌else◌, Result, ok, err, ◌>>=◌, ◌>>◌,
  fail_if,
}
use rewind_git_for_ai_agent.Bytes.{Bytes, bytes_eq}
use rewind_git_for_ai_agent.Bytes.Separator.{contains, starts_with, split}

abbrev pub max_snapshot_path_bytes : ℕ
max_snapshot_path_bytes = 4096

-- Only `from_str` makes a path, so every path of the program has passed its tests.
pub record SnapshotPath : Type 0 where
  pub as_str : Bytes

pub data SnapshotPathError : Type 0 where
  empty : SnapshotPathError
  too_long : (actual maximum : ℕ) → SnapshotPathError
  absolute nul backslash empty_component current_directory parent_directory : SnapshotPathError

abbrev pub slash : ℕ
slash = b'/'

abbrev pub dot : Bytes
dot = b'.' ∷ []

abbrev pub dot_dot : Bytes
dot_dot = b'.' ∷ b'.' ∷ []

-- the `match component` in the loop
unfoldable pub check_component : Bytes → Result (Unit {0}) SnapshotPathError
check_component component =
    if bytes_eq component []
    then err empty_component
    else if bytes_eq component dot
    then err current_directory
    else if bytes_eq component dot_dot
    then err parent_directory
    else ok tt

unfoldable pub check_components : List Bytes → Result (Unit {0}) SnapshotPathError
check_components [] = ok tt
check_components (component ∷ components) = check_component component >> check_components components

unfoldable pub from_str : Bytes → Result SnapshotPath SnapshotPathError
from_str input = do
  fail_if (bytes_eq input []) empty
  fail_if (ltb max_snapshot_path_bytes (length input))
      (too_long (length input) max_snapshot_path_bytes)
  fail_if (starts_with slash input) absolute
  fail_if (contains 0 input) nul
  fail_if (contains b'\\' input) backslash
  check_components (split slash input)
  ok (record { as_str = input })
