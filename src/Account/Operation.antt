-- ===== src/Account/Operation.antt =====
-- account/operation.go: `lookup` and `run`.
pub mod Plan
pub mod Converges
use compage_go.Base.{
  ◌≡◌, refl, Bool, true, false, not, ◌&&◌, ◌||◌, Option, none, some, List, [], ◌∷◌, ◌++◌, ◌==◌,
  nat_comparable, list_comparable, if◌then◌else◌, Bytes, lit,
}
use compage_go.Go.Strconv.{format_bool}
use compage_go.Account.Spec.{
  Record, Spec, Change, EnsureResult, leave_home_unchanged, require_home, ensure_home, verify,
  validate,
}
use compage_go.Account.Backend.{
  Failure, privilege, drift, unsupported, validation, wrapped, context_error, is_not_found, Result,
  ok, err, Os, is_unix, is_darwin, os_name, Backend,
}
use compage_go.Account.Compare.{absent, when, when_given, creation_changes, compare_for}

abbrev pub no_record : Record
no_record = record {
  name = [];
  uid = [];
  gid = [];
  group = [];
  home = [];
  shell = [];
  groups = [];
  hidden = false;
}

abbrev pub no_result : EnsureResult
no_result = record { created = false; changed = []; account = no_record }

-- What `run` returns: a result, and an error or none.
abbrev pub Outcome : Type 0 → Type 0
Outcome S = (EnsureResult × Option Failure) × S

abbrev pub missing_home : Change
missing_home = absent (lit "home directory") (lit "present")

abbrev pub is_empty {ℓ} : {A : Type ℓ} → List A → Bool
is_empty [] = true
is_empty (_ ∷ _) = false

-- `r, err := call(); if err != nil { … }; …`
module _ {S A : Type 0} where
  unfoldable pub on_result :
      Result A × S → (Failure → S → Outcome S) → (A → S → Outcome S) → Outcome S
  on_result (err e, s) stops goes = stops e s
  on_result (ok a, s) stops goes = goes a s

  pub result_rule :
      (Q : Outcome S → Type 0) (r : Result A × S) (stops : Failure → S → Outcome S)
      (goes : A → S → Outcome S)
      → ((e : Failure) → r.0 ≡ err e → Q (stops e r.1))
      → ((a : A) → r.0 ≡ ok a → Q (goes a r.1))
      → Q (on_result r stops goes)
  unfolding on_result
  result_rule Q (err e, s) stops goes f g = f e refl
  result_rule Q (ok a, s) stops goes f g = g a refl

-- `if err := validate(spec); err != nil { return EnsureResult{}, err }`
module _ {S : Type 0} where
  unfoldable pub unless_invalid : Option Bytes → S → Outcome S → Outcome S
  unless_invalid (some message) s go = ((no_result, some (validation message)), s)
  unless_invalid none s go = go

  pub valid_rule :
      (Q : Outcome S → Type 0) (v : Option Bytes) (s : S) (go : Outcome S)
      → ((message : Bytes) → v ≡ some message → Q ((no_result, some (validation message)), s))
      → (v ≡ none → Q go)
      → Q (unless_invalid v s go)
  unfolding unless_invalid
  valid_rule Q (some message) s go f g = f message refl
  valid_rule Q none s go f g = g refl

pub if_rule :
    {A : Type 0} (Q : A → Type 0) (b : Bool) (x y : A)
    → (b ≡ true → Q x)
    → (b ≡ false → Q y)
    → Q (if b then x else y)
if_rule Q true x y t f = t refl
if_rule Q false x y t f = f refl

module _ {S : Type 0} (backend : Backend S) (os : Os) (root : Bool) where
  open backend use {cancelled, home_exists, preflight, apply}

  -- `operation.lookup`
  unfoldable pub lookup : Bytes → Bool → S → Result Record × S
  lookup key by_id s =
      if cancelled s
      then (err (wrapped (lit "account: lookup cancelled") context_error), s)
      else if key == []
      then (err (validation (lit "lookup key is required")), s)
      else if not (is_unix os)
      then (err (unsupported (os_name os)), s)
      else backend.lookup key by_id s

  module _ (spec : Spec) where
    -- Is the home directory there? `result` is what goes with an error.
    unfoldable pub check_home : Bool → EnsureResult → S → Outcome S
    check_home wanted result s =
        if not wanted
        then ((result, none), s)
        else on_result (home_exists spec.home s) (λ e s'. ((result, some e), s'))
            λ there s'.
              if there
              then ((result, none), s')
              else ((result, some (drift (missing_home ∷ []))), s')

    -- Reading the account back after a mutation, the last part of both ways through `run`.
    unfoldable pub read_back : Bool → EnsureResult → S → Outcome S
    unfolding check_home
    read_back wanted result s =
        on_result (backend.lookup spec.name false s) (λ e s'. ((result, some e), s'))
          λ account s'.
            let after : EnsureResult = record result { account = account } in
            let remaining = compare_for os spec account in
            if is_empty remaining
            then check_home wanted after s'
            else ((after, some (drift remaining)), s')

    -- What `apply` returned; what completed of it is the result's changes.
    unfoldable pub applied : (List Change × Option Failure) × S → Bool → EnsureResult → Outcome S
    unfolding read_back
    applied ((completed, some f), s) wanted result =
        ((record result { changed = completed }, some f), s)
    applied ((completed, none), s) wanted result =
        read_back wanted (record result { changed = completed }) s

    -- The mutation, with what completed of it as the result's changes.
    unfoldable pub mutate : Option Record → Bool → Bytes → EnsureResult → S → Outcome S
    unfolding applied
    mutate existing wanted message result s =
        if cancelled s
        then ((result, some (wrapped message context_error)), s)
        else applied (apply spec existing s) wanted result

    -- `run` where the account does not exist.
    unfoldable pub create : Bool → S → Outcome S
    unfolding mutate
    create applies s =
        let changes =
          creation_changes spec
          ++ when (is_darwin os)
              (when_given spec.hidden (λ h. absent (lit "hidden") (format_bool h) ∷ [])) in
        let result : EnsureResult = record {
          created = true;
          changed = changes;
          account = no_record;
        } in
        if not root
        then ((result, some (privilege (lit "create local account"))), s)
        else if not applies
        then ((result, none), s)
        else mutate none (not (spec.home_policy == leave_home_unchanged))
            (lit "account: create cancelled") result s

    unfoldable pub on_missing : Bool → Failure → S → Outcome S
    unfolding create
    on_missing applies f s =
        if not (is_not_found f)
        then ((no_result, some f), s)
        else if spec.group == []
        then (
          (
            no_result,
            some (validation (lit "creating an account requires an explicit primary group")),
          ),
          s,
        )
        else on_result (preflight spec false s) (λ e s'. ((no_result, some e), s'))
            λ _. create applies

    -- `run` where the account exists and what differs is known.
    unfoldable pub reconcile_changes : Bool → Record → List Change → S → Outcome S
    unfolding mutate
    reconcile_changes applies found changes s =
        let result : EnsureResult = record {
          created = false;
          changed = changes;
          account = found;
        } in
        if is_empty changes
        then ((result, none), s)
        else if spec.existing == verify || spec.home_policy == require_home
        then ((result, some (drift changes)), s)
        else if not root
        then ((result, some (privilege (lit "reconcile local account"))), s)
        else if not applies
        then ((result, none), s)
        else mutate (some found) (spec.home_policy == ensure_home)
            (lit "account: reconcile cancelled") result s

    -- The check of an existing account's home directory, which may add a change.
    unfoldable pub on_home : Bool → Record → List Change → S → Outcome S
    unfolding reconcile_changes
    on_home applies found changes s =
        if spec.home_policy == leave_home_unchanged
        then reconcile_changes applies found changes s
        else on_result (home_exists spec.home s)
            (λ e s'. ((record { created = false; changed = changes; account = found }, some e), s'))
            λ there.
              reconcile_changes applies found
                (if there then changes else changes ++ missing_home ∷ [])

    unfoldable pub on_existing : Bool → Record → S → Outcome S
    unfolding on_home
    on_existing applies found s =
        on_result (preflight spec true s) (λ e s'. ((no_result, some e), s'))
          λ _. on_home applies found (compare_for os spec found)

    -- `operation.run`
    unfoldable pub run : Bool → S → Outcome S
    unfolding on_missing on_existing
    run applies s =
        if cancelled s
        then ((no_result, some (wrapped (lit "account: operation cancelled") context_error)), s)
        else unless_invalid (validate spec) s (
            if not (is_unix os)
            then ((no_result, some (unsupported (os_name os))), s)
            else on_result (backend.lookup spec.name false s) (on_missing applies)
                (on_existing applies))

    -- `Check` and `Ensure`
    unfoldable pub check : S → Outcome S
    unfolding run
    check = run false

    unfoldable pub ensure : S → Outcome S
    unfolding run
    ensure = run true

module _ {S : Type 0} (backend : Backend S) (os : Os) where
  -- `Lookup` and `LookupID`
  unfoldable pub lookup_name : Bytes → S → Result Record × S
  unfolding lookup
  lookup_name name = lookup backend os false name false

  unfoldable pub lookup_id : Bytes → S → Result Record × S
  unfolding lookup
  lookup_id uid = lookup backend os false uid true
