-- ===== src/Certs/Store.antt =====
-- certs/file_store.go: `load`, `update`, `loadUnlocks`, `storeUnlocks`, `purge` and the reading of the
-- ledger, as operations on what the files hold. A refusal stands for a check or a system call that
-- fails: there is one entry for each coming operation on a file. Nobody else holds the lock.
pub mod Atomic
use compage_go.Base.{
  ℕ, suc, ◌+◌, ◌%◌, ◌^◌, ◌≤◌, ◌<◌, ◌≡◌, refl, Bool, true, false, not, ◌&&◌, Option, none, some,
  List, [], ◌∷◌, ◌++◌, ◌==◌, nat_comparable, list_comparable, if◌then◌else◌, Bytes, lit, ltb, leb,
}
use compage_go.Go.Map.{Map, lookup}
use compage_go.Certs.Errors.{
  Failure, validation_error, not_found_error, conflict_error, corrupt_error, no_mutation,
  is_not_found, is_no_mutation, Result, ok, err, ◌>>=◌, ◌>>◌, refuse,
}
use compage_go.Certs.Names.{Identity}
use compage_go.Certs.Sans.{Sans}
use compage_go.Certs.Definition.{IssuerDefinition}
use compage_go.Certs.Crypto.{Cert, Crypto, parse_cert_der}
use compage_go.Certs.State.{
  AuthoritySpec, IssuerVersion, IssuerRecord, PendingManifest, State, blank_state,
}
use compage_go.Certs.Validate.{validate_state}

pub record LedgerRecord : Type 0 where
  pub authority_revision : ℕ
  pub fingerprint : Bytes
  pub issuer : Bytes
  pub issuer_version : ℕ
  pub serial : Bytes
  pub certificate_der : Bytes
  pub subject : Identity
  pub sans : Sans
  pub profile : Bytes
  pub issued_at : ℕ
  pub expires_at : ℕ

-- what there is in the ledger of a line that the system refuses to write
pub data Torn : Type 0 where
  nothing part whole : Torn

-- `stored` is what ca.json holds, `unlocks` what localunlock holds. Reading localunlock fails with
-- `unlock_refusal`, if there is one, and reading the ledger with `ledger_refusal`: for a line that is no
-- record, for one, or a record that `validateLedgerRecord` refuses. Without it, `ledger` is what all lines
-- decode to.
pub record Store : Type 0 where
  pub stored : Option State
  pub unlocks : Option (Map ℕ Bytes)
  pub ledger : List LedgerRecord
  pub refusals : List (Option Failure)
  pub unlock_refusal : Option Failure
  pub ledger_refusal : Option Failure
  pub torn : Torn
  pub owner : Bytes
  pub group : Bytes
  pub store_kind : Bytes

-- An operation on a file that may be refused.
unfoldable pub next_refusal : List (Option Failure) → Result (Unit {0})
next_refusal [] = ok tt
next_refusal (none ∷ rest) = ok tt
next_refusal (some e ∷ rest) = err e

unfoldable pub later : List (Option Failure) → List (Option Failure)
later [] = []
later (r ∷ rest) = rest

abbrev pub step : Store → Store
step st = record st { refusals = later st.refusals }

unfoldable pub refused : Option Failure → Result (Unit {0})
refused none = ok tt
refused (some e) = err e

-- the records that `readLedger` and the pages of `listLedger` give
unfoldable pub read_ledger : Store → Result (List LedgerRecord)
unfolding refused
read_ledger st = refused st.ledger_refusal >> ok st.ledger

module _ (x : Crypto) (parse_scheme : Bytes → Option Bytes)
    (definitions_equal : IssuerDefinition → IssuerDefinition → Bool) where
  -- What `load` reads, if no check and no system call fails.
  unfoldable pub decoded : Option State → Result State
  decoded none = err (not_found_error (lit "authority"))
  decoded (some s) = validate_state x parse_scheme definitions_equal s >> ok s

  unfoldable pub load : Store → Result State
  unfolding next_refusal
  load st = next_refusal st.refusals >> decoded st.stored

  -- one round of the loop of `validateLedgerRecords`
  unfoldable pub check_record : State → LedgerRecord → Result (Unit {0})
  check_record s r = do
    refuse (ltb s.revision r.authority_revision)
        (corrupt_error (lit "ledger record has a future authority revision"))
    version ← version_of (lookup r.issuer s.issuers)
    cert ← parse_cert_der x r.certificate_der
    parent ← parse_cert_der x version.certificate_der
    refuse (not (x.signed_by cert parent))
        (corrupt_error (lit "ledger certificate signature mismatch"))
    where
      known : Option IssuerVersion → Result IssuerVersion
      known none = err (corrupt_error (lit "ledger refers to unknown issuer version"))
      known (some v) = ok v

      version_of : Option IssuerRecord → Result IssuerVersion
      version_of none = err (corrupt_error (lit "ledger refers to unknown issuer"))
      version_of (some issuer) = known (lookup r.issuer_version issuer.versions)

  unfoldable pub validate_ledger_records : State → List LedgerRecord → Result (Unit {0})
  validate_ledger_records s [] = ok tt
  validate_ledger_records s (r ∷ rest) = check_record s r >> validate_ledger_records s rest

  -- `if state.Revision <= before { state.Revision = before + 1 }`, of an uint64
  unfoldable pub next_revision : ℕ → State → State
  next_revision before s =
      if leb s.revision before then record s { revision = (before + 1) % 2 ^ 64 } else s

  -- Is the state that is changed a new one?
  unfoldable pub base_state : Result State → Result (Bool × State)
  base_state (ok s) = ok (true, s)
  base_state (err e) = if is_not_found e then ok (false, blank_state) else err e

  -- before the change: the ledger of an authority that keeps one
  unfoldable pub check_ledger : Bool → State → Store → Result (Unit {0})
  check_ledger existing s st =
      if existing && s.spec.issuance_mode == lit "ledger"
      then (read_ledger st >>= validate_ledger_records s)
      else ok tt

  -- `writeState`: the second refusal is that of the directory's sync, behind the rename
  unfoldable pub write_state : State → Store → Result (Unit {0}) × Store
  write_state s st = at_rename (next_refusal st.refusals)
    where
      at_rename : Result (Unit {0}) → Result (Unit {0}) × Store
      at_rename (err e) = (err e, step st)
      at_rename (ok _) =
          (next_refusal (later st.refusals), record (step (step st)) { stored = some s })

  -- behind the change
  unfoldable pub finish_update : Bool → ℕ → State → Store → Result (Unit {0}) × Store
  finish_update existing before changed st =
      check (next_revision before changed) (changed.spec.id == [])
    where
      save : State → Result (Unit {0}) → Result (Unit {0}) × Store
      save s (err e) = (err e, st)
      save s (ok _) =
          if s.spec.issuance_mode == lit "ledger" && not existing
          then with_ledger s (next_refusal st.refusals)
          else write_state s st
        where
          with_ledger : State → Result (Unit {0}) → Result (Unit {0}) × Store
          with_ledger s (err e) = (err e, step st)
          with_ledger s (ok _) = write_state s (step st)

      check : State → Bool → Result (Unit {0}) × Store
      check s true = (err (corrupt_error (lit "mutation produced empty authority")), st)
      check s false = save s (validate_state x parse_scheme definitions_equal s)

  -- `update` with a change that also works on `C`, what its closure captures. The store's own checks
  -- come first; a change that fails leaves the store as it was, and what it captured changed.
  module _ {C : Type 0} where
    unfoldable pub conclude : Bool → ℕ → Result State → C → Store → Result (Unit {0}) × (C × Store)
    conclude existing before (err e) c st = (if is_no_mutation e then ok tt else err e, (c, st))
    conclude existing before (ok s) c st =
        let (r, st') = finish_update existing before s st in (r, (c, st'))

    unfoldable pub update :
        (State → C → Result State × C) → C → Store → Result (Unit {0}) × (C × Store)
    update change c st = locked (next_refusal st.refusals)
      where
        apply : Bool → State → Result (Unit {0}) → Result (Unit {0}) × (C × Store)
        apply existing s (err e) = (err e, (c, step (step st)))
        apply existing s (ok _) =
            let (r, c') = change s c in conclude existing s.revision r c' (step (step (step st)))

        opened : Result (Bool × State) → Result (Unit {0}) × (C × Store)
        opened (err e) = (err e, (c, step (step st)))
        opened (ok (existing, s)) = apply existing s (check_ledger existing s (step (step st)))

        locked : Result (Unit {0}) → Result (Unit {0}) × (C × Store)
        locked (err e) = (err e, (c, step st))
        locked (ok _) = opened (base_state (load (step st)))

-- `loadUnlocks`
unfoldable pub load_unlocks : Store → Result (Map ℕ Bytes)
load_unlocks st = refused st.unlock_refusal >> held st.unlocks
  where
    held : Option (Map ℕ Bytes) → Result (Map ℕ Bytes)
    held none = err (not_found_error (lit "local unlock"))
    held (some v) = ok v

-- `storeUnlocks`
unfoldable pub store_unlocks : Map ℕ Bytes → Bool → Store → Result (Unit {0}) × Store
store_unlocks v replace st = existing st.unlocks
  where
    write : Result (Unit {0}) → Result (Unit {0}) × Store
    write (err e) = (err e, step st)
    write (ok _) = (ok tt, record (step st) { unlocks = some v })

    existing : Option (Map ℕ Bytes) → Result (Unit {0}) × Store
    existing none = write (next_refusal st.refusals)
    existing (some old) =
        if replace
        then write (next_refusal st.refusals)
        else (err (conflict_error (lit "local unlock already exists")), st)

-- `purge`: state, local unlock and ledger in this order, each of which may fail; the lock's file at
-- the end.
unfoldable pub purge : Store → Result (Unit {0}) × Store
purge st = locked (next_refusal st.refusals)
  where
    unlocked : Store → Result (Unit {0}) → Result (Unit {0}) × Store
    unlocked s r = (r, step s)

    no_ledger : Store → Result (Unit {0}) → Result (Unit {0}) × Store
    no_ledger s (err e) = (err e, step s)
    no_ledger s (ok _) =
        unlocked (record (step s) { ledger = [] }) (next_refusal (later s.refusals))

    no_unlocks : Store → Result (Unit {0}) → Result (Unit {0}) × Store
    no_unlocks s (err e) = (err e, step s)
    no_unlocks s (ok _) =
        no_ledger (record (step s) { unlocks = none }) (next_refusal (later s.refusals))

    no_state : Store → Result (Unit {0}) → Result (Unit {0}) × Store
    no_state s (err e) = (err e, step s)
    no_state s (ok _) =
        no_unlocks (record (step s) { stored = none }) (next_refusal (later s.refusals))

    locked : Result (Unit {0}) → Result (Unit {0}) × Store
    locked (err e) = (err e, step st)
    locked (ok _) = no_state (step st) (next_refusal (later st.refusals))
