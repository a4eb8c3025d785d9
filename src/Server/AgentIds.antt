-- ===== src/Server/AgentIds.antt =====
-- pkg/server/specs.go: the identifiers that a configuration may give to agents.
use Prim.Native.Char.{code}
use swarmd.Prelude.{
  ℕ, ◌≡◌, refl, sym, ap, ◌∙◌, String, Bool, true, false, ◌&&◌, ◌||◌, ◌==◌, eqb, leb, is_empty,
  trim_space, Result, ok, refuse, guard, ◌>>◌, refuse->>, arith,
}
use swarmd.Server.Workers.Keys.{has_colon, HasPlainId}
use swarmd.Server.Workers.{RunnableAgent}

-- `[A-Za-z0-9]`
unfoldable pub is_letter_or_digit : ℕ → Bool
is_letter_or_digit c =
    (leb b'A' c && leb c b'Z') || (leb b'a' c && leb c b'z') || (leb b'0' c && leb c b'9')

-- `[A-Za-z0-9._-]*`
all_safe : String → Bool
unfolding is_letter_or_digit
all_safe String.[] = true
all_safe (String.◌∷◌ c s) =
    (is_letter_or_digit (code c) || eqb (code c) b'.' || eqb (code c) b'_' || eqb (code c) b'-')
    && all_safe s

-- `toolscommon.IsSafeIdentifier`
unfoldable pub is_safe_identifier : String → Bool
unfolding all_safe is_letter_or_digit
is_safe_identifier String.[] = false
is_safe_identifier (String.◌∷◌ c s) = is_letter_or_digit (code c) && all_safe s

pub data AgentIdError : Type 0 where
  empty_id dot_id unsafe_id : AgentIdError

unfoldable pub validate_agent_id : String → Result AgentIdError (Unit {0})
unfolding is_safe_identifier
validate_agent_id agent_id = do
  let id = trim_space agent_id
  refuse (is_empty id) empty_id
  refuse (id == "." || id == "..") dot_id
  guard (is_safe_identifier id) unsafe_id

all_safe-has_colon : (s : String) → all_safe s ≡ true → has_colon s ≡ false
unfolding all_safe has_colon
all_safe-has_colon String.[] h = refl
all_safe-has_colon (String.◌∷◌ c s) h = ground (arith, all_safe-has_colon s)

is_safe_identifier-has_colon : (s : String) → is_safe_identifier s ≡ true → has_colon s ≡ false
unfolding is_safe_identifier has_colon
is_safe_identifier-has_colon String.[] h = cc
is_safe_identifier-has_colon (String.◌∷◌ c s) h = ground (arith, all_safe-has_colon s)

-- An agent whose identifier was trimmed and passed the test of the configuration is one that the
-- keys of the workers tell apart.
pub validate_agent_id-HasPlainId :
    (r : RunnableAgent) → trim_space r.id ≡ r.id → validate_agent_id r.id ≡ ok tt → HasPlainId r
unfolding validate_agent_id
validate_agent_id-HasPlainId r trimmed h =
    let id = trim_space r.id in
    let safe : Result AgentIdError (Unit {0}) = guard (is_safe_identifier id) unsafe_id in
    let (_, h₁) =
      refuse->> empty_id (is_empty id) (refuse (id == "." || id == "..") dot_id >> safe) h in
    let (_, h₂) = refuse->> dot_id (id == "." || id == "..") safe h₁ in
    ap has_colon (sym trimmed)
    ∙ is_safe_identifier-has_colon (trim_space r.id)
        (passed (is_safe_identifier (trim_space r.id)) h₂)
  where
    passed : (b : Bool) → guard b unsafe_id ≡ ok tt → b ≡ true
    passed true k = refl
    passed false k = cc
