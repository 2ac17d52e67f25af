-- ===== src/Account/Backend.antt =====
-- account/errors.go, and the interface `backend` of account/operation.go.
use compage_go.Base.{Bool, true, false, Option, List, nat_comparable, list_comparable, Bytes, lit}
use compage_go.Account.Spec.{Record, Spec, Change}

-- The errors of the package; `wrapped` is `errx.New` with a cause.
pub data Failure : Type 0 where
  not_found : Bytes → Failure
  privilege : Bytes → Failure
  drift : List Change → Failure
  unsupported : Bytes → Failure
  validation : Bytes → Failure
  wrapped : Bytes → Failure → Failure
  context_error other : Failure

-- `errors.As(err, &missing)` for a *NotFoundError
unfoldable pub is_not_found : Failure → Bool
is_not_found (not_found key) = true
is_not_found (wrapped message cause) = is_not_found cause
is_not_found _ = false

pub data Result (A : Type 0) : Type 0 where
  ok : A → Result A
  err : Failure → Result A

-- host.OS, as far as the package tells systems apart.
pub data Os : Type 0 where
  linux darwin : Os
  windows : Os
  unnamed : Bytes → Os

unfoldable pub is_unix : Os → Bool
is_unix linux = true
is_unix darwin = true
is_unix _ = false

abbrev pub is_darwin : Os → Bool
is_darwin darwin = true
is_darwin _ = false

unfoldable pub os_name : Os → Bytes
os_name linux = lit "linux"
os_name darwin = lit "darwin"
os_name windows = lit "windows"
os_name (unnamed name) = name

-- The interface `backend` over the state of the host, and the context's `Err`.
pub record Backend (S : Type 0) : Type 0 where
  pub cancelled : S → Bool
  pub lookup : Bytes → Bool → S → Result Record × S
  pub home_exists : Bytes → S → Result Bool × S
  pub preflight : Spec → Bool → S → Result (Unit {0}) × S
  -- the mutations that completed, and an error
  pub apply : Spec → Option Record → S → (List Change × Option Failure) × S
