-- ===== src/Service/Spec.antt =====
-- service/service.go: the specification of a service and its checks.
use compage_go.Base.{
  ℕ, Bool, true, false, not, ◌&&◌, ◌||◌, Option, none, some, List, [], ◌∷◌, ◌==◌, nat_comparable,
  list_comparable, if◌then◌else◌, Bytes, lit, leb,
}
use compage_go.Go.Strings.{has_prefix, has_substring, contains_any, split}
use compage_go.Go.Path.{is_abs, clean, base, slash, dot, dot_dot}
use compage_go.Account.Spec as account

-- `Scope` and `RestartPolicy` are uint8 in Go, so other values can be given.
abbrev pub user : ℕ
user = 0

abbrev pub system : ℕ
system = 1

abbrev pub restart_never : ℕ
restart_never = 0

abbrev pub restart_on_failure : ℕ
restart_on_failure = 1

abbrev pub restart_always : ℕ
restart_always = 2

-- `specification`; a map is the list of its entries.
pub record Specification : Type 0 where
  pub name : Bytes
  pub description : Bytes
  pub binary : Bytes
  pub stdout : Bytes
  pub stderr : Bytes
  pub revision : Bytes
  pub args : List Bytes
  pub env : List (Bytes × Bytes)
  pub scope : ℕ
  pub restart : ℕ
  pub account : Option account.Spec
  pub runtime_dir : Option Bytes
  pub config_dir : Option Bytes
  pub state_dir : Option Bytes
  pub log_dir : Option Bytes
  pub config_writable : Bool
  pub config_read_declared : Bool
  pub stdout_log : Option Bytes
  pub stderr_log : Option Bytes

-- The NUL character and the line breaks.
abbrev pub line_breaks : Bytes
line_breaks = 0 ∷ 13 ∷ 10 ∷ []

-- The backslash, the NUL character, the line breaks and the tab.
abbrev pub unwanted : Bytes
unwanted = b'\\' ∷ 0 ∷ 13 ∷ 10 ∷ 9 ∷ []

-- The loop of `validRelativeDirectory`
unfoldable pub valid_parts : List Bytes → Bool
valid_parts [] = true
valid_parts (part ∷ parts) = not (part == [] || part == dot || part == dot_dot) && valid_parts parts

-- `validRelativeDirectory`
unfoldable pub valid_relative_directory : Bytes → Bool
unfolding valid_parts
valid_relative_directory v =
    not (v == [] || is_abs v || not (clean v == v) || contains_any v unwanted)
    && valid_parts (split slash v)

-- `validLogFilename`
unfoldable pub valid_log_filename : Bytes → Bool
valid_log_filename v =
    not (v == [])
    && base v == v
    && clean v == v
    && not (contains_any v (slash ∷ unwanted))
    && not (v == dot)
    && not (v == dot_dot)

abbrev pub is_lower : ℕ → Bool
is_lower r = leb b'a' r && leb r b'z'

abbrev pub is_upper : ℕ → Bool
is_upper r = leb b'A' r && leb r b'Z'

abbrev pub is_digit : ℕ → Bool
is_digit r = leb b'0' r && leb r b'9'

-- One character of a name. A character outside ASCII is refused by each of its bytes.
abbrev pub name_character : ℕ → Bool
name_character r =
    r == b'.' || r == b'-' || r == b'_' || r == b':' || is_lower r || is_upper r || is_digit r

unfoldable pub name_characters : Bytes → Bool
name_characters [] = true
name_characters (r ∷ v) = name_character r && name_characters v

-- `validServiceName`
unfoldable pub valid_service_name : Bytes → Bool
unfolding name_characters has_prefix
valid_service_name v =
    not (v == [] || v == dot || v == dot_dot || has_prefix v (b'-' ∷ [])) && name_characters v

abbrev pub env_letter : ℕ → Bool
env_letter r = r == b'_' || is_upper r || is_lower r

unfoldable pub env_characters : Bytes → Bool
env_characters [] = true
env_characters (r ∷ v) = (env_letter r || is_digit r) && env_characters v

-- `validEnv`: the first character is no digit.
unfoldable pub valid_env : Bytes → Bool
unfolding env_characters
valid_env [] = false
valid_env (r ∷ v) = env_letter r && env_characters v

unfoldable pub valid_entries : List (Bytes × Bytes) → Bool
unfolding valid_env
valid_entries [] = true
valid_entries ((k, v) ∷ rest) =
    valid_env k && not (contains_any v line_breaks) && valid_entries rest

unfoldable pub valid_args : List Bytes → Bool
valid_args [] = true
valid_args (arg ∷ args) = not (contains_any arg line_breaks) && valid_args args

abbrev pub given {ℓ} : {A : Type ℓ} → Option A → Bool
given none = false
given (some _) = true

-- The first check that fails, of a sequence of checks with their messages.
unfoldable pub first_failure : List (Bool × Bytes) → Option Bytes
first_failure [] = none
first_failure ((failed, message) ∷ checks) =
    let next = first_failure checks in if failed then some message else next

-- The checks of `validate`, in order, each with the message of its `ValidationError`.
unfoldable pub checks : Specification → List (Bool × Bytes)
unfolding valid_service_name valid_entries valid_args
checks s =
    (not (s.scope == user) && not (s.scope == system), lit "unknown scope")
    ∷ (
      not (s.restart == restart_never)
          && not (s.restart == restart_on_failure)
          && not (s.restart == restart_always),
      lit "unknown restart policy",
    )
    ∷ (
      s.binary == [] || not (is_abs s.binary) || not (clean s.binary == s.binary),
      lit "binary must be a clean absolute path",
    )
    ∷ (
      has_prefix s.binary (lit "/tmp/") || has_substring s.binary (lit "/.dist/"),
      lit "binary must not be in a temporary or build-output path",
    )
    ∷ (not (valid_service_name s.name), lit "invalid service name")
    ∷ (
      contains_any s.description line_breaks || contains_any s.revision line_breaks,
      lit "description and revision must not contain control line breaks",
    )
    ∷ (s.scope == user && given s.account, lit "account requires system scope")
    ∷ (s.config_writable && not (given s.config_dir), lit "config write requires config directory")
    ∷ (not (valid_entries s.env), lit "invalid environment")
    ∷ (not (valid_args s.args), lit "arguments must not contain control line breaks")
    ∷ []

-- `validate`: the message of the `ValidationError`, or none.
unfoldable pub validate : Specification → Option Bytes
unfolding checks first_failure
validate s = first_failure (checks s)
