-- ===== src/Domain/Permissions.antt =====
-- crates/rewind-domain/src/snapshot.rs: `UnixPermissions`, a `u16` of the twelve supported mode bits.
use Prim.Native.Nat.{bit_and}
use rewind_git_for_ai_agent.Prelude.{ℕ, Bool, not, ◌==◌, if◌then◌else◌, Result, ok, err}

pub record UnixPermissions : Type 0 where
  pub bits : ℕ

pub record InvalidUnixPermissions : Type 0 where
  pub bits : ℕ

-- `UnixPermissions::MASK`, 0o7777, and `!MASK` in a `u16`
abbrev pub mask : ℕ
mask = 0o7777

abbrev pub not_mask : ℕ
not_mask = 0xf000

unfoldable pub new : ℕ → Result UnixPermissions InvalidUnixPermissions
new bits =
    if bit_and bits not_mask == 0 then ok (record { bits = bits }) else err (record { bits = bits })

unfoldable pub is_executable : UnixPermissions → Bool
is_executable p = not (bit_and p.bits 0o111 == 0)
