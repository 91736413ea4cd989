-- ===== src/Domain/Path/Normal.antt =====
-- About `SnapshotPath::from_str`: which texts are paths.
use rewind_git_for_ai_agent.Prelude.{
  ◌≤◌, List, [], ◌∷◌, length, ◌≡◌, ◌≢◌, ◌↔◌, refl, false, All, arith, ok,
}
use rewind_git_for_ai_agent.Bytes.{Bytes}
use rewind_git_for_ai_agent.Bytes.Compare.{bytes_eq_iff}
use rewind_git_for_ai_agent.Bytes.Separator.{contains, starts_with, split}
use rewind_git_for_ai_agent.Domain.Path.{
  SnapshotPath, slash, dot, dot_dot, max_snapshot_path_bytes, check_component, check_components,
  from_str,
}

abbrev pub IsPlainName : Bytes → Type 0
IsPlainName w = (w ≢ []) × (w ≢ dot) × (w ≢ dot_dot)

pub record IsNormal (text : Bytes) : Type 0 where
  pub bounded : length text ≤ max_snapshot_path_bytes
  pub no_nul : contains 0 text ≡ false
  pub no_backslash : contains b'\\' text ≡ false
  pub plain : All IsPlainName (split slash text)

check_component_iff : (w : Bytes) → (check_component w ≡ ok tt) ↔ IsPlainName w
unfolding check_component
check_component_iff w =
    ground (arith, bytes_eq_iff w [], bytes_eq_iff w dot, bytes_eq_iff w dot_dot)

check_components_iff : (ws : List Bytes) → (check_components ws ≡ ok tt) ↔ All IsPlainName ws
unfolding check_components
check_components_iff [] = ground arith
check_components_iff (w ∷ ws) = ground (arith, check_component_iff w, check_components_iff ws)

-- A path that starts with a slash has an empty first component.
starts_with-split :
    (text : Bytes) → All IsPlainName (split slash text) → starts_with slash text ≡ false
unfolding starts_with split
starts_with-split [] h = refl
starts_with-split (b ∷ bs) h = ground arith

split-plain-ne-nil : (text : Bytes) → All IsPlainName (split slash text) → text ≢ []
unfolding split
split-plain-ne-nil [] h = absurd (h.0.0 refl)
split-plain-ne-nil (b ∷ bs) h = λ e. cc

-- `from_str` accepts a text exactly when it is normal, and keeps it as it is.
pub from_str_iff :
    (text : Bytes) (p : SnapshotPath) → (from_str text ≡ ok p) ↔ ((p.as_str ≡ text) × IsNormal text)
unfolding from_str
from_str_iff text p = (
  λ h. ground (arith, check_components_iff (split slash text)),
  λ h. ground (
    arith,
    check_components_iff (split slash text),
    bytes_eq_iff text [],
    split-plain-ne-nil text,
    starts_with-split text,
  ),
)
