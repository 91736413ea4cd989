-- ===== src/Bytes/Ordered.antt =====
-- `slice::sort` where keys may repeat, and `Vec::dedup` behind it, which leaves each of them once.
use mathlib.Core.List.Permᴰ
use rewind_git_for_ai_agent.Prelude.{
  ℕ, Ordering, List, [], ◌∷◌, ◌≡◌, ◌≢◌, sym, subst, ◌↔◌, inl, inr, Bool-cases, if◌then◌else◌, All,
  arith,
}
use rewind_git_for_ai_agent.Bytes.Compare.{
  cmp, bytes_eq, Lt, bytes_eq_iff, eq_of_cmp, cmp-lt_iff-gt, Gt-cases,
}
use rewind_git_for_ai_agent.Bytes.Sorting.{
  insert, sort_by, insert_front, insert_past, LtFirst, IsAdjacent, IsAdjacent-IsSorted, IsSorted,
  All-perm, sort_by-perm,
}

module _ {ℓ} {A : Type ℓ} (key : A → List ℕ) where
  -- A string that is not greater than the first key of a list, if there is one.
  abbrev LeFirst : List ℕ → List A → Type 0
  LeFirst k [] = Unit {0}
  LeFirst k (x ∷ xs) = cmp k (key x) ≢ Ordering.gt

  -- Each key is not greater than the next one.
  abbrev IsOrdered : List A → Type 0
  IsOrdered [] = Unit {0}
  IsOrdered (x ∷ xs) = LeFirst (key x) xs × IsOrdered xs

  LeFirst-insert :
      (k : List ℕ) (a : A) (xs : List A)
      → cmp k (key a) ≢ Ordering.gt
      → LeFirst k xs
      → LeFirst k (insert key a xs)
  LeFirst-insert k a [] h f = unfold insert in h
  LeFirst-insert k a (x ∷ xs) h f = elim (Gt-cases (key a) (key x)) [
    | inl g ↦ rw (insert_past key a x xs g) f
    | inr n ↦ rw (insert_front key a x xs n) h
  ]

  insert-IsOrdered : (a : A) (xs : List A) → IsOrdered xs → IsOrdered (insert key a xs)
  insert-IsOrdered a [] s = unfold insert in (tt, tt)
  insert-IsOrdered a (x ∷ xs) s = elim (Gt-cases (key a) (key x)) [
    | inl g ↦
        let le : cmp (key x) (key a) ≢ Ordering.gt =
          λ h. cc ((cmp-lt_iff-gt (key x) (key a)).1 g, h) in
        rw (insert_past key a x xs g)
          (LeFirst-insert (key x) a xs le s.0, insert-IsOrdered a xs s.1)
    | inr n ↦ rw (insert_front key a x xs n) (n, s)
  ]

  sort_by-IsOrdered : (xs : List A) → IsOrdered (sort_by key xs)
  unfolding sort_by
  sort_by-IsOrdered [] = tt
  sort_by-IsOrdered (x ∷ xs) = insert-IsOrdered x (sort_by key xs) (sort_by-IsOrdered xs)

  -- The elements of a list behind `p` that differ from the one before them.
  unfoldable pub dedup_behind : A → List A → List A
  dedup_behind p [] = []
  dedup_behind p (q ∷ qs) =
      let same = dedup_behind p qs in
      let other = dedup_behind q qs in if bytes_eq (key p) (key q) then same else q ∷ other

  unfoldable pub dedup : List A → List A
  dedup [] = []
  dedup (p ∷ ps) = p ∷ dedup_behind p ps

  dedup_behind-IsAdjacent :
      (p : A) (qs : List A)
      → LeFirst (key p) qs
      → IsOrdered qs
      → LtFirst key (key p) (dedup_behind p qs) × IsAdjacent key (dedup_behind p qs)
  unfolding dedup_behind
  dedup_behind-IsAdjacent p [] f s = (tt, tt)
  dedup_behind-IsAdjacent p (q ∷ qs) f s = elim (Bool-cases (bytes_eq (key p) (key q))) [
    | inl e ↦
        let k = (bytes_eq_iff (key p) (key q)).0 e in
        rw (dedup_behind, e)
          (dedup_behind-IsAdjacent p qs (subst (λ x. LeFirst x qs) (sym k) s.0) s.1)
    | inr n ↦
        let l : Lt (key p) (key q) =
          ground (arith, bytes_eq_iff (key p) (key q), eq_of_cmp (key p) (key q)) in
        rw (dedup_behind, n) (l, dedup_behind-IsAdjacent q qs s.0 s.1)
  ]

  dedup-IsAdjacent : (xs : List A) → IsOrdered xs → IsAdjacent key (dedup xs)
  unfolding dedup
  dedup-IsAdjacent [] s = tt
  dedup-IsAdjacent (x ∷ xs) s = dedup_behind-IsAdjacent x xs s.0 s.1

  pub dedup-sort_by-IsSorted : (xs : List A) → IsSorted key (dedup (sort_by key xs))
  dedup-sort_by-IsSorted xs =
      IsAdjacent-IsSorted key (dedup (sort_by key xs))
        (dedup-IsAdjacent (sort_by key xs) (sort_by-IsOrdered xs))

  All-dedup_behind {κ} :
      (P : A → Type κ)
      → ((a b : A) → key a ≡ key b → a ≡ b)
      → (p : A) (qs : List A) → P p
      → All P (dedup_behind p qs) ↔ All P qs
  unfolding dedup_behind
  All-dedup_behind P inj p [] h = (λ k. tt, λ k. tt)
  All-dedup_behind P inj p (q ∷ qs) h = elim (Bool-cases (bytes_eq (key p) (key q))) [
    | inl e ↦
        let hq = subst P (inj p q ((bytes_eq_iff (key p) (key q)).0 e)) h in
        let rest = All-dedup_behind P inj p qs h in
        rw (dedup_behind, e) (λ k. (hq, rest.0 k), λ k. rest.1 k.1)
    | inr n ↦
        rw (dedup_behind, n)
          (
            λ k. (k.0, (All-dedup_behind P inj q qs k.0).0 k.1),
            λ k. (k.0, (All-dedup_behind P inj q qs k.0).1 k.1),
          )
  ]

  All-dedup {κ} :
      (P : A → Type κ)
      → ((a b : A) → key a ≡ key b → a ≡ b)
      → (xs : List A) → All P (dedup xs) ↔ All P xs
  unfolding dedup
  All-dedup P inj [] = (λ k. tt, λ k. tt)
  All-dedup P inj (x ∷ xs) = (
    λ k. (k.0, (All-dedup_behind P inj x xs k.0).0 k.1),
    λ k. (k.0, (All-dedup_behind P inj x xs k.0).1 k.1),
  )

  -- The same elements are in the list, where the key decides the element.
  pub All-dedup-sort_by {κ} :
      (P : A → Type κ)
      → ((a b : A) → key a ≡ key b → a ≡ b)
      → (xs : List A) → All P (dedup (sort_by key xs)) ↔ All P xs
  All-dedup-sort_by P inj xs = (
    λ k. All-perm key P (Permᴰ.symm (sort_by-perm key xs)) ((All-dedup P inj (sort_by key xs)).0 k),
    λ k. (All-dedup P inj (sort_by key xs)).1 (All-perm key P (sort_by-perm key xs) k),
  )
