-- ===== src/Domain/Tests.antt =====
-- Runs of the domain's operations, and the properties at concrete inputs.
use mathlib.Core.List.{Permᴰ}
use rewind_git_for_ai_agent.Prelude.{
  ℕ, [], ◌∷◌, ◌++◌, reverse, ◌≡◌, refl, ◌↔◌, true, false, some, All, ok, err,
}
use rewind_git_for_ai_agent.Bytes.{cmp, bytes_eq}
use rewind_git_for_ai_agent.Bytes.Text.{ascii}
use rewind_git_for_ai_agent.Bytes.Separator.{contains, starts_with, split}
use rewind_git_for_ai_agent.Bytes.Sorting.{sort_by, IsSorted, HasDistinctKeys}
use rewind_git_for_ai_agent.Domain.Path.{
  SnapshotPath, absolute, parent_directory, empty_component, slash, check_component,
  check_components, from_str,
}
use rewind_git_for_ai_agent.Domain.Path.Normal.{IsNormal, from_str_iff}
use rewind_git_for_ai_agent.Domain.Path.Walk.{walk, walk-from_str}
use rewind_git_for_ai_agent.Domain.Permissions.{UnixPermissions, is_executable}
use rewind_git_for_ai_agent.Domain.Manifest.{
  SnapshotEntry, SnapshotManifest, directory, file, duplicate_path, snapshot_schema_version,
  path_text, validate, check_order, check_entries, from_canonical_entries, new,
}
use rewind_git_for_ai_agent.Domain.Manifest.Canonical.{
  IsValid, from_canonical_entries_iff, new_iff, new_unique,
}

abbrev pub nested : SnapshotPath
nested = record { as_str = ascii "src/main.rs" }

from_str-nested : from_str (ascii "src/main.rs") ≡ ok nested
unfolding from_str check_components check_component contains starts_with split bytes_eq cmp
from_str-nested = refl

from_str_rejects :
    (from_str (ascii "/etc") ≡ err absolute)
    × (from_str (ascii "a/../b") ≡ err parent_directory)
    × (from_str (ascii "a//b") ≡ err empty_component)
unfolding from_str check_components check_component contains starts_with split bytes_eq cmp
from_str_rejects = (refl, refl, refl)

from_str_iff_example :
    (from_str (ascii "src/main.rs") ≡ ok nested)
    ↔ ((nested.as_str ≡ ascii "src/main.rs") × IsNormal (ascii "src/main.rs"))
from_str_iff_example = from_str_iff (ascii "src/main.rs") nested

walk-from_str_example :
    walk (ascii "root" ∷ []) (split slash nested.as_str)
    ≡ some (reverse (split slash (ascii "src/main.rs")) ++ (ascii "root" ∷ []))
walk-from_str_example =
    walk-from_str (ascii "src/main.rs") nested (ascii "root" ∷ []) from_str-nested

abbrev pub mode : ℕ → UnixPermissions
mode bits = record { bits = bits }

abbrev pub source_directory : SnapshotEntry
source_directory = record {
  path = record { as_str = ascii "src" };
  kind = directory;
  permissions = mode 0o755;
}

abbrev pub script : SnapshotEntry
script = record {
  path = record { as_str = ascii "src/run" };
  kind = file (record { bytes = 7 ∷ [] }) 3 true;
  permissions = mode 0o755;
}

abbrev pub notes : SnapshotEntry
notes = record {
  path = record { as_str = ascii "notes" };
  kind = file (record { bytes = 9 ∷ [] }) 5 false;
  permissions = mode 0o644;
}

abbrev pub manifest : SnapshotManifest
manifest = record { schema_version = 1; entries = notes ∷ source_directory ∷ script ∷ [] }

new-manifest : new (script ∷ notes ∷ source_directory ∷ []) ≡ ok manifest
unfolding new from_canonical_entries check_entries check_order validate is_executable sort_by cmp
new-manifest = refl

new_rejects_duplicate : new (notes ∷ notes ∷ []) ≡ err (duplicate_path notes.path)
unfolding new from_canonical_entries check_entries check_order validate is_executable sort_by cmp
new_rejects_duplicate = refl

from_canonical_entries_iff_example : (from_canonical_entries 1 manifest.entries ≡ ok manifest) ↔ (
    (◌≡◌ {A = ℕ} 1 snapshot_schema_version)
    × All IsValid manifest.entries
    × IsSorted path_text manifest.entries
    × (manifest ≡ record { schema_version = 1; entries = manifest.entries }))
from_canonical_entries_iff_example = from_canonical_entries_iff 1 manifest.entries manifest

new_iff_example : (new (script ∷ notes ∷ []) ≡ ok manifest) ↔ (
    All IsValid (script ∷ notes ∷ [])
    × HasDistinctKeys path_text (script ∷ notes ∷ [])
    × (manifest ≡ record {
      schema_version = snapshot_schema_version;
      entries = sort_by path_text (script ∷ notes ∷ []);
    }))
new_iff_example = new_iff (script ∷ notes ∷ []) manifest

new_unique_example : new (notes ∷ script ∷ source_directory ∷ []) ≡ ok manifest
new_unique_example = new_unique manifest (Permᴰ.swap refl refl) new-manifest
