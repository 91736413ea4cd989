-- ===== src/Bytes/Compare.antt =====
-- `Ord` on byte strings (`[u8]`, `str`, `String`, `SnapshotPath`): the lexicographic order of the
-- bytes.
use rewind_git_for_ai_agent.Prelude.{
  ℕ, compare, Ordering, List, [], ◌∷◌, ◌≡◌, refl, ◌↔◌, ◌≢◌, ◌⊎◌, Bool, true, false, arith,
}

unfoldable pub cmp : List ℕ → List ℕ → Ordering
cmp [] [] = Ordering.eq
cmp [] (y ∷ ys) = Ordering.lt
cmp (x ∷ xs) [] = Ordering.gt
cmp (x ∷ xs) (y ∷ ys) = elim (compare x y) [
  | Ordering.lt ↦ Ordering.lt
  | Ordering.gt ↦ Ordering.gt
  | Ordering.eq ↦ cmp xs ys
]

abbrev pub Lt : List ℕ → List ℕ → Type 0
Lt a b = cmp a b ≡ Ordering.lt

-- `a == b` and `a < b`
unfoldable pub bytes_eq : List ℕ → List ℕ → Bool
bytes_eq a b = elim (cmp a b) [ Ordering.eq ↦ true | _ ↦ false ]

unfoldable pub bytes_lt : List ℕ → List ℕ → Bool
bytes_lt a b = elim (cmp a b) [ Ordering.lt ↦ true | _ ↦ false ]

pub cmp_refl : (a : List ℕ) → cmp a a ≡ Ordering.eq
unfolding cmp
cmp_refl [] = refl
cmp_refl (x ∷ xs) = ground (arith, cmp_refl xs)

pub eq_of_cmp : (a b : List ℕ) → cmp a b ≡ Ordering.eq → a ≡ b
unfolding cmp
eq_of_cmp [] [] h = refl
eq_of_cmp [] (y ∷ ys) h = cc
eq_of_cmp (x ∷ xs) [] h = cc
eq_of_cmp (x ∷ xs) (y ∷ ys) h = ground (arith, eq_of_cmp xs ys)

pub cmp-lt_iff-gt : (a b : List ℕ) → Lt a b ↔ (cmp b a ≡ Ordering.gt)
unfolding cmp
cmp-lt_iff-gt [] [] = ground arith
cmp-lt_iff-gt [] (y ∷ ys) = ground arith
cmp-lt_iff-gt (x ∷ xs) [] = ground arith
cmp-lt_iff-gt (x ∷ xs) (y ∷ ys) = ground (arith, cmp-lt_iff-gt xs ys)

pub Lt_trans : (a b c : List ℕ) → Lt a b → Lt b c → Lt a c
unfolding cmp
Lt_trans [] (y ∷ ys) (z ∷ zs) h k = refl
Lt_trans [] [] c h k = cc
Lt_trans [] (y ∷ ys) [] h k = cc
Lt_trans (x ∷ xs) [] c h k = cc
Lt_trans (x ∷ xs) (y ∷ ys) [] h k = cc
Lt_trans (x ∷ xs) (y ∷ ys) (z ∷ zs) h k = ground (arith, Lt_trans xs ys zs)

pub eq-cmp : {a b : List ℕ} → a ≡ b → cmp a b ≡ Ordering.eq
eq-cmp {a} e = rw (← e) (cmp_refl a)

pub bytes_eq_iff : (a b : List ℕ) → (bytes_eq a b ≡ true) ↔ (a ≡ b)
bytes_eq_iff a b = (
  λ h. eq_of_cmp a b (unfold bytes_eq in ground arith),
  λ e. unfold bytes_eq in ground (arith, eq-cmp e),
)

pub bytes_lt_iff : (a b : List ℕ) → (bytes_lt a b ≡ true) ↔ Lt a b
unfolding bytes_lt
bytes_lt_iff a b = ground arith

pub not-Lt_refl : (a : List ℕ) → ¬ Lt a a
not-Lt_refl a h = cc (cmp_refl a)

pub Lt-ne : (a b : List ℕ) → Lt a b → ¬ (a ≡ b)
Lt-ne a b h e = cc (eq-cmp e)

-- Of two different strings one is less.
pub Lt_total : (a b : List ℕ) → ¬ (a ≡ b) → cmp a b ≢ Ordering.lt → Lt b a
Lt_total a b ne h = ground (arith, eq_of_cmp a b, cmp-lt_iff-gt b a)

-- Either `a` is greater than `b`, or it is not.
pub Gt-cases : (a b : List ℕ) → (cmp a b ≡ Ordering.gt) ⊎ (cmp a b ≢ Ordering.gt)
Gt-cases a b = ground arith

pub data Compared (a b : List ℕ) : Type 0 where
  less : Lt a b → Compared a b
  equal : a ≡ b → Compared a b
  greater : Lt b a → Compared a b

-- A split on the order of two strings.
pub Compared-cases : (a b : List ℕ) → Compared a b
Compared-cases a b = split (cmp a b) refl
  where
    split : (o : Ordering) → cmp a b ≡ o → Compared a b
    split Ordering.lt e = less e
    split Ordering.eq e = equal (eq_of_cmp a b e)
    split Ordering.gt e = greater ((cmp-lt_iff-gt b a).1 e)

pub gt_of_le_gt :
    (a x b : List ℕ) → cmp a x ≢ Ordering.gt → cmp b x ≡ Ordering.gt → cmp b a ≡ Ordering.gt
gt_of_le_gt a x b h g = elim (Compared-cases a x) [
  | less l ↦ (cmp-lt_iff-gt a b).0 (Lt_trans a x b l ((cmp-lt_iff-gt x b).1 g))
  | equal e ↦ rw e g
  | greater l ↦ absurd (h ((cmp-lt_iff-gt x a).0 l))
]
