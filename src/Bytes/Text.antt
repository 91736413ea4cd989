-- ===== src/Bytes/Text.antt =====
-- The bytes of an ASCII text, for constants and tests.
use Prim.Native.Char.{code}
use Prim.Native.String.{String}
use rewind_git_for_ai_agent.Prelude.{ℕ, List, [], ◌∷◌}

abbrev pub ascii : String → List ℕ
ascii String.[] = []
ascii (String.◌∷◌ c s) = code c ∷ ascii s
