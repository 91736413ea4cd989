-- ===== src/Capture/Terminal/UniqueBytes.antt =====
-- About `projected_object_bytes` of crates/rewind-capture/src/recorder.rs: objects counted once.
use rewind_git_for_ai_agent.Prelude.{
  ℕ, ◌+◌, ◌≤◌, List, [], ◌∷◌, ◌++◌, ◌≡◌, refl, sym, ap, inl, inr, Option, none, some, true, false,
  if◌then◌else◌, Bool-cases, ok, arith,
}
use rewind_git_for_ai_agent.Bytes.{Bytes, bytes_eq}
use rewind_git_for_ai_agent.Bytes.Compare.{bytes_eq_iff}
use rewind_git_for_ai_agent.Domain.Digest.{ObjectId}
use rewind_git_for_ai_agent.Capture.Recorder.{contains_object, additional_bytes, within_limit}

-- The bytes of the objects of a list, each counted once, when `size` gives the size for an identifier.
unfoldable pub unique_bytes : (Bytes → ℕ) → List ObjectId → ℕ
unique_bytes size [] = 0
unique_bytes size (id ∷ ids) =
    let rest = unique_bytes size ids in
    if contains_object id ids then rest else size id.bytes + rest

contains_object_last :
    (id other : ObjectId) (ids : List ObjectId)
    → contains_object id (ids ++ (other ∷ []))
      ≡ (if contains_object id ids then true else bytes_eq other.bytes id.bytes)
unfolding contains_object
contains_object_last id other [] = ground arith
contains_object_last id other (x ∷ xs) = ground (arith, contains_object_last id other xs)

pub unique_bytes_last :
    (size : Bytes → ℕ) (ids : List ObjectId) (id : ObjectId)
    → unique_bytes size (ids ++ (id ∷ [])) ≡ (
        if contains_object id ids
        then unique_bytes size ids
        else unique_bytes size ids + size id.bytes)
unfolding unique_bytes contains_object
unique_bytes_last size [] id = omega arith
unique_bytes_last size (x ∷ xs) id = elim (Bool-cases (bytes_eq x.bytes id.bytes)) [
  | inl same ↦
      let e = (bytes_eq_iff x.bytes id.bytes).0 same in
      let back : bytes_eq id.bytes x.bytes ≡ true = (bytes_eq_iff id.bytes x.bytes).1 (sym e) in
      let alike : contains_object x xs ≡ contains_object id xs =
        ap (λ b. contains_object (record { bytes = b }) xs) e in
      let sizes : size x.bytes ≡ size id.bytes = ap size e in
      ground (arith, unique_bytes_last size xs id, contains_object_last x id xs)
  | inr other ↦
      let back : bytes_eq id.bytes x.bytes ≡ false = elim (Bool-cases (bytes_eq id.bytes x.bytes)) [
        | inl e ↦ absurd (
            cc (
              other,
              (bytes_eq_iff x.bytes id.bytes).1 (sym ((bytes_eq_iff id.bytes x.bytes).0 e)),
            ))
        | inr n ↦ n
      ] in
      ground (arith, unique_bytes_last size xs id, contains_object_last x id xs)
]

pub additional_bytes_one :
    (ids : List ObjectId) (id : ObjectId) (n additional : ℕ)
    → additional_bytes ids 0 (record { object_id = id; logical_size = n } ∷ []) ≡ some additional
    → additional ≡ (if contains_object id ids then 0 else n)
unfolding additional_bytes
additional_bytes_one ids id n additional h = ground arith

pub within_limit-eq-ok :
    (maximum counted : ℕ) (additional : Option ℕ) (projected : ℕ)
    → within_limit maximum counted additional ≡ ok projected
    → (n : ℕ) × (additional ≡ some n) × (projected ≡ counted + n) × (projected ≤ maximum)
unfolding within_limit
within_limit-eq-ok maximum counted none projected h = cc h
within_limit-eq-ok maximum counted (some n) projected h = (n, refl, ground arith, ground arith)
