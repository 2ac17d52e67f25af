-- ===== src/Lib.antt =====
-- Models of packages of the Go library compage-go, and theorems on them.
--
-- The packages are independent but for errx, whose errors all of them return, and account, which
-- service calls. What is modelled, by package:
--
-- errx (errx/kind.go, errx/error.go, errx/inspect.go)
--   Errx.Kind      `Kind`, `Valid`, `String`
--   Errx.Tree      errors as trees over a heap: an error is nil, a typed nil, a pointer or a value,
--                  its object has an own kind or none, and unwraps to nothing, one error or several;
--                  what is no pointer cannot lead back to itself but through one
--   Errx.Inspect   `KindOf`, `KindsOf`, `IsKind`; the map `seen` is a list of marks. Below it:
--                  Occurs (what the walks look for), and the proofs Ends, Sound, Closed, Grows, Exact
--                  and Fails
--   Errx.Wrap      `New` with its options and panics, `Error`, `Unwrap`; below it Hidden
-- account (account/account.go, account/operation.go, account/errors.go)
--   Account.Spec      the data and `validate`
--   Account.Backend   the errors and the interface `backend`, over a state that is a parameter
--   Account.Compare   `creationChanges`, `compare`, `compareFor`, `sameStrings`; below it
--                     Agrees and Multiset
--   Account.Operation `lookup` and `run`, with `Lookup`, `LookupID`, `Check` and `Ensure`; below it
--                     Plan and Converges
-- service (service/service.go, service/directories.go, service/operation.go, service/backend.go,
-- service/errors.go, and the directories of the two backends)
--   Service.Errors      the errors, with those of the calls
--   Service.Files       the state: a file system, and the monad of actions that can fail; Files.Rules
--                       has the rules that the proofs use
--   Service.Calls       `osFiles` by the calls of the package os; Calls.Frame has lemmas on them
--   Service.Directories `ensureManagedDirectory`, `verifyManagedDirectory` and what they call; below
--                       it Ensure, Others and Parts (`splitAbsolute`)
--   Service.Cleanup     `cleanupManaged`; below it Safe
--   Service.Logs        `ensureManagedLog`; below it Kept
--   Service.Spec        `specification`, `validate` and the tests of names
--   Service.Options     the options; below it Valid
--   Service.Definitions the operations on the definition of a service in service/backend.go
--   Service.Resolve     `resolveDirectories`, `directoryBases` and `validate` of the backends; below
--                       it Below
--   Service.Reconcile   `reconcileDirectories`; below it Managed and Succeeds
--   Service.Operation   `operation`: Ensure, Commands (start, restart, stop, status, uninstall,
--                       purge), Create (`New`, `Directories`; below it Valid), and the proofs
--                       Purge, Reasons and Admission
-- text (text/text.go)
--   Text.Slug           `Case`, `Slugify`; below it Words and Runs
--   Text.Affixes        `StripPrefix`, `EnsurePrefix`, `EnsureSuffix`
--   Text.Cut            `Truncate`, over runes
-- certs (the directory certs)
--   Certs.Errors        certs/errors.go, and results
--   Certs.Names         certs/models.go: identities and display names; below it Words and Stable
--   Certs.Dns           `validDNSName`, and `matchesDNSSuffix` of certs/issuer.go
--   Certs.Definition    certs/models.go: issuer definitions and policies, with `validateDefinition`
--   Certs.Sans          `SANs` and their normal forms, with `mergeSANs`; below it Unique
--   Certs.Crypto        the functions of crypto and x509 that certs calls, as a record, and what
--                       certs/crypto.go, certs/csr.go and certs/authority.go make of them
--   Certs.State         certs/store.go: what is stored
--   Certs.Validate      `validateState` of certs/validate.go; below it Names
--   Certs.Store         certs/file_store.go: load, update, the local unlocks and purge; below it
--                       Atomic
--   Certs.Ledger        the ledger of certs/file_store.go, and the checks of its records in
--                       certs/validate.go
--   Certs.Manager       certs/authority.go: the options and `assertSpec`, `activeRootSigner`; below
--                       it Drift, New (`NewAuthorityManager`) and Configured
--   Certs.Making        `makeRoot`, `makeIssuer`
--   Certs.Authority     `provision`, `prepareRoot`, `prepareIssuers`; below it Due and Ensure (the
--                       operation Ensure; Ensure.Stuck), and certs/authority_operations.go: Promote
--                       (the changes of PromotePending, DiscardPending and PruneRoot), Unlocks and
--                       Operations (the operations as a whole); then Lawful (what is relied on of
--                       the crypto libraries), Created and First (the first call of Ensure)
--   Certs.Sound         which keys a state is to hold, and that each operation keeps to it, by
--                       operation: Made, Issuer, Loops, Stage, Free, Provision, Ensured, Changes,
--                       Promoted, Promotion, Withdrawal; then Reach, Kept and Operations, for all
--                       sequences of operations
--   Certs.Trust         certs/trust.go and `newTrustBundle` of certs/trust_bundle.go; below it
--                       Bundle, Rotation, Leaves and Signed
--   Certs.Request       certs/issuer.go: `validateRequest`, and `SignCSR` up to the loop that draws
--                       serials; below it Admitted
--   Certs.Issuing       `IssuerManager`, its making, reload and closing, what it reads of the ledger, and
--                       `SignCSR` as a whole; below it Recorded, Keeps, Origin (which root a leaf is
--                       signed under), Distinct and Pages
-- The manager of an authority works on a store, which it changes by a closure that the store's update
-- runs on what it has loaded; the issuer of leaves reads the same store and appends to its ledger.
-- Base has the shared helpers, and Go the parts of the packages strings, unicode, path/filepath and
-- strconv that the program calls, and maps as association lists. A string is the list of its bytes.
-- The modules whose names end in Tests run the definitions on small inputs; Certs.Toy has what they
-- put in the place of the crypto libraries, and Certs.Exact a version that keeps all that is relied on.
--
-- The file system of Service.Files is a function from clean absolute paths to what stands there:
-- a directory, a regular file or a symbolic link, with mode, owner and group. Each call may be
-- refused by the system for reasons of its own: `refusals` has an entry for each coming call. A new
-- directory has its mode masked by `masked`; a removal that is refused leaves some of what it was to
-- remove, as `survives` says. Nobody else changes files meanwhile, and a path is looked up as it is
-- spelt: links are followed where a call follows the last component, not in its ancestors.
--
-- Bounds: the walks of errx take fuel for each pointer that they follow, one unit for each
-- object and one more, which is enough, since a pointer that was followed is marked. A path ends in at
-- most 40 symbolic links, as on Linux.
-- `strconv.Itoa` takes fuel for 20 digits, enough for 64 bits. The search for a free root generation
-- takes one unit for each root, which is enough, since each generation is taken once.
--
-- In certs a time is a number of nanoseconds, 0 the zero time, and an operation reads the clock once.
-- The order of a map is that of its list. Random values are drawn from `seed`, a counter of the
-- manager. Each operation on a file of the store may be refused, as `refusals` says, and reading the
-- local unlocks or the ledger as `unlock_refusal` and `ledger_refusal` say, the latter also for lines that
-- are no records or records that `validateLedgerRecord` refuses; `torn` says how much of a
-- record is in the ledger if its write is refused. In SignCSR, which takes the store's lock again and
-- again, `others` stands for what other managers do to the store before each of its accesses, and
-- `history` for the one state that a store had at each of its revisions. The loop
-- over serials has its eight rounds, as in the source. Letters beyond ASCII keep
-- their case, but for the four whose other case is an ASCII letter.
--
-- Parameters: the context is a Boolean, whether it is done; the backends of account and service,
-- and `ensureAccount`, are functions on the state. In certs, the record Crypto stands for x509,
-- PKCS #8 and the random numbers, and IsLawful for what is relied on of them: that a key of a supported
-- kind is certified, with the fields of a template for an authority, and that what is drawn can be read
-- again; Net for the texts and ranges of addresses and the folding of case,
-- `parse_scheme` for `url.Parse`, and `definitions_equal` for the comparison by JSON.
--
-- Not modelled: errors that are slices or maps and unwrap to themselves, on which the walks of errx do
-- not end; the backends of account and service themselves (useradd, dscl, systemd, launchd),
-- the definitions that they write and the reasons read off them; of certs the SQLite store, the
-- decoding of a ledger's lines, the parsing of PEM, the options' scopes, bundles, that of a new leaf
-- too, and files that are saved; and the packages host, style, term, config, configpflag and console.
mod Base
pub mod Go
pub mod Errx
pub mod Account
pub mod Service
pub mod Text
pub mod Certs
