-- ===== src/Domain/Path/Walk.antt =====
-- What a file system does with the components of a relative path.
use mathlib.Core.List.{reverse-cons}
use rewind_git_for_ai_agent.Prelude.{
  List, [], ◌∷◌, ◌++◌, reverse, ◌≡◌, refl, sym, ap, ◌∙◌, Option, none, some, All, arith, ◌||◌,
  append_assoc, if◌then◌else◌, ok,
}
use rewind_git_for_ai_agent.Bytes.{Bytes, bytes_eq}
use rewind_git_for_ai_agent.Bytes.Compare.{bytes_eq_iff}
use rewind_git_for_ai_agent.Bytes.Separator.{split}
use rewind_git_for_ai_agent.Domain.Path.{SnapshotPath, slash, dot, dot_dot, from_str}
use rewind_git_for_ai_agent.Domain.Path.Normal.{IsPlainName, from_str_iff}

-- `..` from the directory `dir`, whose names stand innermost first; `none` leaves the root.
abbrev parent : List Bytes → Option (List Bytes)
parent [] = none
parent (name ∷ up) = some up

unfoldable pub enter : Bytes → List Bytes → Option (List Bytes)
enter w dir =
    if bytes_eq w [] || bytes_eq w dot
    then some dir
    else if bytes_eq w dot_dot
    then parent dir
    else some (w ∷ dir)

-- The directory or entry that the components lead to, beneath the root.
unfoldable pub walk : List Bytes → List Bytes → Option (List Bytes)
walk dir [] = some dir
walk dir (w ∷ ws) = elim (enter w dir) [ none ↦ none | some next ↦ walk next ws ]

enter_plain : (w : Bytes) (dir : List Bytes) → IsPlainName w → enter w dir ≡ some (w ∷ dir)
unfolding enter
enter_plain w dir h = ground (arith, bytes_eq_iff w [], bytes_eq_iff w dot, bytes_eq_iff w dot_dot)

walk_down :
    (w : Bytes) (ws dir : List Bytes) → IsPlainName w → walk dir (w ∷ ws) ≡ walk (w ∷ dir) ws
unfolding walk
walk_down w ws dir h = rw (enter_plain w dir h, walk)

walk_plain : (dir ws : List Bytes) → All IsPlainName ws → walk dir ws ≡ some (reverse ws ++ dir)
walk_plain dir [] h = unfold walk in refl
walk_plain dir (w ∷ ws) h =
    walk_down w ws dir h.0
    ∙ walk_plain (w ∷ dir) ws h.1
    ∙ ap some (
        sym (append_assoc (reverse ws) (w ∷ []) dir)
        ∙ ap (λ names. names ++ dir) (sym (reverse-cons w ws)))

-- From any directory beneath the root, a parsed path leads down: to the directory of its last
-- component, under that of the one before, and so on up to the directory where the walk began. No
-- step of the walk goes up, stays, or leaves the root.
pub walk-from_str :
    (text : Bytes) (p : SnapshotPath) (dir : List Bytes)
    → from_str text ≡ ok p
    → walk dir (split slash p.as_str) ≡ some (reverse (split slash text) ++ dir)
walk-from_str text p dir h =
    let (e, n) = (from_str_iff text p).0 h in rw e (walk_plain dir (split slash text) n.plain)
