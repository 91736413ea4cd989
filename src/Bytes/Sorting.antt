-- ===== src/Bytes/Sorting.antt =====
-- `slice::sort`, `sort_by` and `sort_by_key` where the key is a byte string: a stable sort. The
-- list is ordered by insertion from the right, so that elements with equal keys keep their order.
use mathlib.Core.List.{Permᴰ}
use mathlib.Core.List.Permᴰ
use rewind_git_for_ai_agent.Prelude.{
  ℕ, Ordering, List, [], ◌∷◌, length, ◌≡◌, refl, sym, ap, ap₂, ◌∙◌, ◌≢◌, inl, inr, subst, All,
  All-imp, arith,
}
use rewind_git_for_ai_agent.Bytes.Compare.{
  cmp, Lt, Lt_trans, Lt-ne, eq_of_cmp, cmp-lt_iff-gt, Gt-cases, less, equal, greater,
  Compared-cases, gt_of_le_gt,
}

module _ {ℓ} {A : Type ℓ} (key : A → List ℕ) where
  unfoldable pub insert : A → List A → List A
  insert a [] = a ∷ []
  insert a (x ∷ xs) = elim (cmp (key a) (key x)) [ Ordering.gt ↦ x ∷ insert a xs | _ ↦ a ∷ x ∷ xs ]

  unfoldable pub sort_by : List A → List A
  unfolding insert
  sort_by [] = []
  sort_by (x ∷ xs) = insert x (sort_by xs)

  -- Strictly increasing keys: every key is less than every later one.
  abbrev pub IsSorted : List A → Type ℓ
  IsSorted [] = Unit {ℓ}
  IsSorted (x ∷ xs) = All (λ y. Lt (key x) (key y)) xs × IsSorted xs

  abbrev pub HasDistinctKeys : List A → Type ℓ
  HasDistinctKeys [] = Unit {ℓ}
  HasDistinctKeys (x ∷ xs) = All (λ y. key x ≢ key y) xs × HasDistinctKeys xs

  pub insert_front :
      (a x : A) (xs : List A) → cmp (key a) (key x) ≢ Ordering.gt → insert a (x ∷ xs) ≡ a ∷ x ∷ xs
  unfolding insert
  insert_front a x xs h = ground arith

  pub insert_past :
      (a x : A) (xs : List A)
      → cmp (key a) (key x) ≡ Ordering.gt
      → insert a (x ∷ xs) ≡ x ∷ insert a xs
  unfolding insert
  insert_past a x xs h = ground arith

  All-insert {κ} : (P : A → Type κ) (a : A) (xs : List A) → P a → All P xs → All P (insert a xs)
  All-insert P a [] h hs = unfold insert in (h, tt)
  All-insert P a (x ∷ xs) h hs = elim (Gt-cases (key a) (key x)) [
    | inl g ↦ rw (insert_past a x xs g) (hs.0, All-insert P a xs h hs.1)
    | inr n ↦ rw (insert_front a x xs n) (h, hs)
  ]

  insert-IsSorted :
      (a : A) (xs : List A) → All (λ y. key a ≢ key y) xs → IsSorted xs → IsSorted (insert a xs)
  insert-IsSorted a [] ne s = unfold insert in (tt, tt)
  insert-IsSorted a (x ∷ xs) ne s = elim (Compared-cases (key a) (key x)) [
    | less h ↦
        rw (insert_front a x xs (λ g. cc (h, g)))
          ((h, All-imp (λ y k. Lt_trans (key a) (key x) (key y) h k) xs s.0), s)
    | equal e ↦ absurd (ne.0 e)
    | greater h ↦
        rw (insert_past a x xs ((cmp-lt_iff-gt (key x) (key a)).0 h))
          (All-insert (λ y. Lt (key x) (key y)) a xs h s.0, insert-IsSorted a xs ne.1 s.1)
  ]

  All-sort_by {κ} : (P : A → Type κ) (xs : List A) → All P xs → All P (sort_by xs)
  unfolding sort_by
  All-sort_by P [] h = tt
  All-sort_by P (x ∷ xs) h = All-insert P x (sort_by xs) h.0 (All-sort_by P xs h.1)

  -- Sorting elements with distinct keys puts them in strictly increasing order.
  pub sort_by-IsSorted : (xs : List A) → HasDistinctKeys xs → IsSorted (sort_by xs)
  unfolding sort_by
  sort_by-IsSorted [] d = tt
  sort_by-IsSorted (x ∷ xs) d =
      insert-IsSorted x (sort_by xs) (All-sort_by (λ y. key x ≢ key y) xs d.0)
        (sort_by-IsSorted xs d.1)

  insert-perm : (a : A) (xs : List A) → Permᴰ (a ∷ xs) (insert a xs)
  insert-perm a [] = unfold insert in Permᴰ.refl (a ∷ [])
  insert-perm a (x ∷ xs) = elim (Gt-cases (key a) (key x)) [
    | inl g ↦
        rw (insert_past a x xs g)
          (Permᴰ.trans (Permᴰ.swap refl refl) (Permᴰ.cons refl (insert-perm a xs)))
    | inr n ↦ rw (insert_front a x xs n) (Permᴰ.refl _)
  ]

  -- Sorting keeps the elements.
  pub sort_by-perm : (xs : List A) → Permᴰ xs (sort_by xs)
  unfolding sort_by
  sort_by-perm [] = Permᴰ.nil
  sort_by-perm (x ∷ xs) =
      Permᴰ.trans (Permᴰ.cons refl (sort_by-perm xs)) (insert-perm x (sort_by xs))

  -- What is sorted already stays as it is.
  pub sort_by-sorted : (xs : List A) → IsSorted xs → sort_by xs ≡ xs
  unfolding sort_by
  sort_by-sorted [] s = refl
  sort_by-sorted (x ∷ []) s = unfold insert in refl
  sort_by-sorted (x ∷ y ∷ ys) s =
      ap (insert x) (sort_by-sorted (y ∷ ys) s.1) ∙ insert_front x y ys (λ g. cc (s.0.0, g))

  insert_comm :
      (a b : A) (xs : List A) → key a ≢ key b → insert a (insert b xs) ≡ insert b (insert a xs)
  unfolding insert
  insert_comm a b [] ne = ground (
    arith,
    eq_of_cmp (key a) (key b),
    cmp-lt_iff-gt (key a) (key b),
    cmp-lt_iff-gt (key b) (key a),
  )
  insert_comm a b (x ∷ xs) ne = ground (
    arith,
    eq_of_cmp (key a) (key b),
    cmp-lt_iff-gt (key a) (key b),
    cmp-lt_iff-gt (key b) (key a),
    gt_of_le_gt (key a) (key x) (key b),
    gt_of_le_gt (key b) (key x) (key a),
    insert_comm a b xs ne,
  )

  pub All-perm {κ} : (P : A → Type κ) {xs ys : List A} → Permᴰ xs ys → All P xs → All P ys
  All-perm P Permᴰ.nil h = h
  All-perm P (Permᴰ.cons e p) h = (subst P e h.0, All-perm P p h.1)
  All-perm P (Permᴰ.swap e f) h = (subst P f h.1.0, (subst P e h.0, h.1.1))
  All-perm P (Permᴰ.trans p q) h = All-perm P q (All-perm P p h)

  pub length-perm : {xs ys : List A} → Permᴰ xs ys → length xs ≡ length ys
  length-perm Permᴰ.nil = refl
  length-perm (Permᴰ.cons e p) = omega (arith, length-perm p)
  length-perm (Permᴰ.swap e f) = refl
  length-perm (Permᴰ.trans p q) = length-perm p ∙ length-perm q

  pub HasDistinctKeys-perm :
      {xs ys : List A} → Permᴰ xs ys → HasDistinctKeys xs → HasDistinctKeys ys
  HasDistinctKeys-perm Permᴰ.nil h = h
  HasDistinctKeys-perm (Permᴰ.cons {a = a} {l₂ = l} e p) h = (
    subst (λ x. All (λ y. key x ≢ key y) l) e (All-perm (λ y. key a ≢ key y) p h.0),
    HasDistinctKeys-perm p h.1,
  )
  HasDistinctKeys-perm (Permᴰ.swap {l = l} e f) h = (
    (
      λ k. h.0.0 (ap key e ∙ sym k ∙ sym (ap key f)),
      subst (λ x. All (λ y. key x ≢ key y) l) f h.1.0,
    ),
    (subst (λ x. All (λ y. key x ≢ key y) l) e h.0.1, h.1.1),
  )
  HasDistinctKeys-perm (Permᴰ.trans p q) h = HasDistinctKeys-perm q (HasDistinctKeys-perm p h)

  -- The sorted list depends on the elements alone, not on the order in which they came.
  pub sort_by_unique : {xs ys : List A} → Permᴰ xs ys → HasDistinctKeys xs → sort_by xs ≡ sort_by ys
  unfolding sort_by
  sort_by_unique Permᴰ.nil d = refl
  sort_by_unique (Permᴰ.cons e p) d = ap₂ insert e (sort_by_unique p d.1)
  sort_by_unique (Permᴰ.swap {l = l} e f) d = rw (← e, ← f) (insert_comm _ _ (sort_by l) d.0.0)
  sort_by_unique (Permᴰ.trans p q) d =
      sort_by_unique p d ∙ sort_by_unique q (HasDistinctKeys-perm p d)

  -- A string below the first key of a list, if there is one.
  abbrev pub LtFirst : List ℕ → List A → Type 0
  LtFirst k [] = Unit {0}
  LtFirst k (x ∷ xs) = Lt k (key x)

  -- Each key is less than the next one.
  abbrev pub IsAdjacent : List A → Type 0
  IsAdjacent [] = Unit {0}
  IsAdjacent (x ∷ xs) = LtFirst (key x) xs × IsAdjacent xs

  pub LtFirst-All :
      (k : List ℕ) (xs : List A) → LtFirst k xs → IsSorted xs → All (λ y. Lt k (key y)) xs
  LtFirst-All k [] h s = tt
  LtFirst-All k (x ∷ xs) h s = (h, All-imp (λ y l. Lt_trans k (key x) (key y) h l) xs s.0)

  pub IsAdjacent-IsSorted : (xs : List A) → IsAdjacent xs → IsSorted xs
  IsAdjacent-IsSorted [] h = tt
  IsAdjacent-IsSorted (x ∷ xs) h =
      let s = IsAdjacent-IsSorted xs h.1 in (LtFirst-All (key x) xs h.0 s, s)

  All-LtFirst : (k : List ℕ) (xs : List A) → All (λ y. Lt k (key y)) xs → LtFirst k xs
  All-LtFirst k [] h = tt
  All-LtFirst k (x ∷ xs) h = h.0

  pub IsSorted-IsAdjacent : (xs : List A) → IsSorted xs → IsAdjacent xs
  IsSorted-IsAdjacent [] s = tt
  IsSorted-IsAdjacent (x ∷ xs) s = (All-LtFirst (key x) xs s.0, IsSorted-IsAdjacent xs s.1)

  pub IsSorted-HasDistinctKeys : (xs : List A) → IsSorted xs → HasDistinctKeys xs
  IsSorted-HasDistinctKeys [] s = tt
  IsSorted-HasDistinctKeys (x ∷ xs) s =
      (All-imp (λ y l. Lt-ne (key x) (key y) l) xs s.0, IsSorted-HasDistinctKeys xs s.1)
