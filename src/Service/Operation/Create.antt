-- ===== src/Service/Operation/Create.antt =====
-- service/service.go: `New` and `Directories`.
pub mod Valid
use compage_go.Base.{
  Bool, true, false, not, ◌&&◌, Option, none, some, List, [], ◌==◌, nat_comparable, list_comparable,
  if◌then◌else◌, Bytes, lit,
}
use compage_go.Go.Path.{base}
use compage_go.Service.Errors.{Failure, validation, privilege, Result, ok, err}
use compage_go.Service.Spec.{Specification, system, validate, valid_service_name}
use compage_go.Service.Options.{ServiceOption, apply_all, default_specification, zero_specification}
use compage_go.Service.Resolve.{AppDirectories, platform_backend, validate_for, resolve_directories}
use compage_go.Service.Operation.{User, Operation}
use compage_go.Account.Backend.{Os}

module _ {A B : Type 0} where
  infixl 5 ◌>>=◌
  abbrev pub ◌>>=◌ : Result A → (A → Result B) → Result B
  (ok a) >>= f = f a
  (err e) >>= f = err e

-- A check that returns the message of a `ValidationError`.
abbrev pub checked : Option Bytes → Result (Unit {0})
checked none = ok tt
checked (some message) = err (validation message)

abbrev pub require : Bool → Failure → Result (Unit {0})
require true e = ok tt
require false e = err e

-- The name of the binary is the name of a service that has none.
abbrev pub named : Specification → Specification
named s = if s.name == [] then record s { name = base s.binary } else s

module _ (os : Os) (root : Bool) (host_user : Result User) where
  -- `New`
  unfoldable pub new : List ServiceOption → Result Operation
  unfolding apply_all
  new opts = do
    s ← apply_all opts default_specification
    platform ← platform_backend os
    let s' : Specification = named s
    valid ← checked (validate s')
    fits ← checked (validate_for platform s')
    allowed ←
        require (not (s'.scope == system && not root)) (privilege (lit "manage system service"))
    u ← host_user
    ok (record { spec = s'; platform = platform; user = u; root = root })

  -- `Directories`
  unfoldable pub directories : Bytes → List ServiceOption → Result AppDirectories
  unfolding apply_all
  directories name opts = do
    s ← apply_all opts (record zero_specification { name = name })
    valid ← require (valid_service_name s.name) (validation (lit "invalid service name"))
    platform ← platform_backend os
    fits ← checked (validate_for platform s)
    u ← host_user
    d ← resolve_directories platform s u.home
    ok d.paths
