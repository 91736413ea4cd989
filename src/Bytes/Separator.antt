-- ===== src/Bytes/Separator.antt =====
-- `str::split(char)` for an ASCII separator, `str::contains`, `[u8]::contains` and `starts_with` for
-- one byte, and the join that undoes the split.
use rewind_git_for_ai_agent.Prelude.{
  ℕ, List, [], ◌∷◌, ◌++◌, ◌≡◌, refl, Bool, false, ◌||◌, ◌==◌, if◌then◌else◌, arith, Bool-cases, inl,
  inr, ◌≢◌,
}

unfoldable pub contains : ℕ → List ℕ → Bool
contains c [] = false
contains c (b ∷ bs) = b == c || contains c bs

unfoldable pub starts_with : ℕ → List ℕ → Bool
starts_with c [] = false
starts_with c (b ∷ bs) = b == c

-- A byte in front of the first of the pieces.
abbrev pub extend_first : ℕ → List (List ℕ) → List (List ℕ)
extend_first b [] = (b ∷ []) ∷ []
extend_first b (w ∷ ws) = (b ∷ w) ∷ ws

-- The pieces between the separators: one more than there are separators.
unfoldable pub split : ℕ → List ℕ → List (List ℕ)
split c [] = [] ∷ []
split c (b ∷ bs) = let rest = split c bs in if b == c then [] ∷ rest else extend_first b rest

unfoldable pub join : ℕ → List (List ℕ) → List ℕ
join c [] = []
join c (w ∷ []) = w
join c (w ∷ v ∷ ws) = w ++ (c ∷ join c (v ∷ ws))

pub split-ne-nil : (c : ℕ) (bs : List ℕ) → split c bs ≢ []
unfolding split
split-ne-nil c [] e = cc
split-ne-nil c (b ∷ bs) e = ground (arith, split-ne-nil c bs)

join-extend_first : (c b : ℕ) (ws : List (List ℕ)) → join c (extend_first b ws) ≡ b ∷ join c ws
unfolding join
join-extend_first c b [] = refl
join-extend_first c b (w ∷ []) = refl
join-extend_first c b (w ∷ v ∷ ws) = refl

join-empty_first : (c : ℕ) (ws : List (List ℕ)) → ws ≢ [] → join c ([] ∷ ws) ≡ c ∷ join c ws
unfolding join
join-empty_first c [] h = absurd (h refl)
join-empty_first c (w ∷ ws) h = refl

-- Splitting loses nothing.
pub join-split : (c : ℕ) (bs : List ℕ) → join c (split c bs) ≡ bs
unfolding split
join-split c [] = unfold join in refl
join-split c (b ∷ bs) = elim (Bool-cases (b == c)) [
  | inl e ↦
      rw (e, join-empty_first c (split c bs) (split-ne-nil c bs), join-split c bs) (ground arith)
  | inr n ↦ rw (n, join-extend_first, join-split c bs)
]
