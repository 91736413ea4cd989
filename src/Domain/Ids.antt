-- ===== src/Domain/Ids.antt =====
-- crates/rewind-domain/src/id.rs and time.rs: the identifiers of records, which are UUIDs of the
-- package uuid and stand here as their 128-bit numbers, the positive integers, and the two times.
use rewind_git_for_ai_agent.Prelude.{
  ℕ, zero, suc, ◌+◌, ◌^◌, [], ◌∷◌, length, Bool, false, not, ◌&&◌, ◌||◌, Option, none, some, ltb,
  leb, if◌then◌else◌, Result, err, fail_if, ℤ,
}
use rewind_git_for_ai_agent.Bytes.{Bytes}
use rewind_git_for_ai_agent.Bytes.Separator.{starts_with}

pub record RunId : Type 0 where
  pub uuid : ℕ

pub record BranchId : Type 0 where
  pub uuid : ℕ

pub record CheckpointId : Type 0 where
  pub uuid : ℕ

pub record EventId : Type 0 where
  pub uuid : ℕ

pub record TerminalStreamId : Type 0 where
  pub uuid : ℕ

-- Milliseconds from the Unix epoch, an `i64`.
pub record Timestamp : Type 0 where
  pub unix_milliseconds : ℤ

-- Nanoseconds from the start of the run, a `u64`.
pub record MonotonicDuration : Type 0 where
  pub nanoseconds : ℕ

pub record ProcessId : Type 0 where
  pub get : ℕ

pub record EventSequence : Type 0 where
  pub get : ℕ

pub data IntegerIdParseError : Type 0 where
  non_canonical is_zero out_of_range : IntegerIdParseError

unfoldable pub is_digit : ℕ → Bool
is_digit b = leb b'0' b && leb b b'9'

-- `input.bytes().any(|byte| !byte.is_ascii_digit())`
unfoldable pub any_not_digit : Bytes → Bool
any_not_digit [] = false
any_not_digit (b ∷ bs) = not (is_digit b) || any_not_digit bs

unfoldable pub validate_decimal : Bytes → Result (Unit {0}) IntegerIdParseError
validate_decimal [] = err non_canonical
validate_decimal (b ∷ bs) =
    fail_if (any_not_digit (b ∷ bs) || (ltb 1 (length (b ∷ bs)) && starts_with b'0' (b ∷ bs)))
      non_canonical

-- `ProcessId::new` and `EventSequence::new`
unfoldable pub process_id : ℕ → Option ProcessId
process_id zero = none
process_id (suc n) = some (record { get = suc n })

unfoldable pub event_sequence : ℕ → Option EventSequence
event_sequence zero = none
event_sequence (suc n) = some (record { get = suc n })

-- `EventSequence::FIRST`
abbrev pub first : EventSequence
first = record { get = 1 }

unfoldable pub checked_next : EventSequence → Option EventSequence
checked_next s = if ltb (s.get + 1) (2 ^ 64) then event_sequence (s.get + 1) else none
