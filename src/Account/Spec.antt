-- ===== src/Account/Spec.antt =====
-- account/account.go: the data, and the validation of account/operation.go.
use compage_go.Base.{
  ℕ, ◌%◌, ◌^◌, Bool, true, false, not, ◌&&◌, ◌||◌, Option, none, some, List, [], ◌∷◌, ◌==◌,
  nat_comparable, list_comparable, if◌then◌else◌, Bytes, lit,
}
use compage_go.Base.Members.{contains}
use compage_go.Go.Strings.{has_prefix, contains_any}
use compage_go.Go.Path.{is_abs, clean}
use compage_go.Go.Strconv.{ℤ, negsuc}

pub record Record : Type 0 where
  pub name : Bytes
  pub uid : Bytes
  pub gid : Bytes
  pub group : Bytes
  pub home : Bytes
  pub shell : Bytes
  pub groups : List Bytes
  pub hidden : Bool

-- `HomePolicy` and `ExistingPolicy` are uint8 in Go, so other values can be given.
abbrev pub leave_home_unchanged : ℕ
leave_home_unchanged = 0

abbrev pub require_home : ℕ
require_home = 1

abbrev pub ensure_home : ℕ
ensure_home = 2

abbrev pub verify : ℕ
verify = 0

abbrev pub reconcile : ℕ
reconcile = 1

-- Pointers and the slice `Groups` may be nil.
pub record Spec : Type 0 where
  pub name : Bytes
  pub uid : Option ℤ
  pub group : Bytes
  pub gid : Option ℤ
  pub groups : Option (List Bytes)
  pub home : Bytes
  pub home_policy : ℕ
  pub home_mode : ℕ
  pub shell : Bytes
  pub hidden : Option Bool
  pub existing : ℕ

pub record Change : Type 0 where
  pub field : Bytes
  pub before : Bytes
  pub after : Bytes

pub record EnsureResult : Type 0 where
  pub created : Bool
  pub changed : List Change
  pub account : Record

-- `validLocalName`
unfoldable pub valid_local_name : Bytes → Bool
unfolding has_prefix contains_any
valid_local_name value =
    not (value == [])
    && not (has_prefix value (b'-' ∷ []))
    && not (contains_any value (b':' ∷ b'/' ∷ b'\\' ∷ 0 ∷ b' ' ∷ 9 ∷ 10 ∷ []))

abbrev pub negative : Option ℤ → Bool
negative (some (negsuc _)) = true
negative _ = false

abbrev pub given {ℓ} : {A : Type ℓ} → Option A → Bool
given none = false
given (some _) = true

-- The loop over the supplementary groups; the result is the message of the `ValidationError`.
unfoldable pub check_groups : List Bytes → List Bytes → Option Bytes
unfolding valid_local_name
check_groups seen [] = none
check_groups seen (group ∷ rest) =
    let next = check_groups (group ∷ seen) rest in
    if not (valid_local_name group)
    then some (lit "supplementary group must be a simple local group name")
    else if contains seen group
    then some (lit "supplementary groups must be unique")
    else next

abbrev pub or_empty : Option (List Bytes) → List Bytes
or_empty none = []
or_empty (some gs) = gs

-- The checks of `validate` behind the groups.
unfoldable pub validate_home : Spec → Option Bytes
unfolding is_abs clean
validate_home s =
    if not (s.home_policy == leave_home_unchanged)
      && (s.home == [] || not (is_abs s.home) || not (clean s.home == s.home))
    then some (lit "home must be a clean absolute path")
    else if not (s.home_mode == 0) && not (s.home_mode % 2 ^ 9 == s.home_mode)
    then some (lit "home mode may contain permissions only")
    else none

-- `validate`: the message of the `ValidationError`, or none.
unfoldable pub validate : Spec → Option Bytes
unfolding valid_local_name check_groups validate_home
validate s =
    if not (valid_local_name s.name)
    then some (lit "name must be a simple local account name")
    else if not (s.existing == verify) && not (s.existing == reconcile)
    then some (lit "unknown existing policy")
    else if not (s.home_policy == leave_home_unchanged)
        && not (s.home_policy == require_home)
        && not (s.home_policy == ensure_home)
    then some (lit "unknown home policy")
    else if negative s.uid
    then some (lit "UID must not be negative")
    else if negative s.gid
    then some (lit "GID must not be negative")
    else if given s.gid && s.group == []
    then some (lit "GID requires a primary group")
    else elim (check_groups [] (or_empty s.groups)) [
      | some message ↦ some message
      | none ↦ validate_home s
    ]
