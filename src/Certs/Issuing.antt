-- ===== src/Certs/Issuing.antt =====
-- certs/issuer.go: `NewIssuerManager`, `reload`, `Reload`, `Close`, `LookupCertificate`,
-- `ListCertificates` and `SignCSR`, but for the bundle that a leaf is returned in. Between two accesses to the store others may change it: `others n` is
-- what they do before the access number `n`.
pub mod Recorded
pub mod Distinct
pub mod Keeps
pub mod Pages
pub mod Origin
use compage_go.Base.{
  ℕ, zero, suc, ◌+◌, ◌-◌, ◌≤◌, ◌<◌, ◌≡◌, ◌⊎◌, inl, inr, refl, Bool, true, false, not, ◌&&◌, ◌||◌,
  Option, none, some, List, [], ◌∷◌, ◌==◌, nat_comparable, list_comparable, if◌then◌else◌, Bytes,
  lit, ltb,
}
use compage_go.Go.Strconv.{ℤ, pos}
use compage_go.Go.Map.{Map, lookup}
use compage_go.Certs.Errors.{
  Failure, validation_error, unavailable_error, not_found_error, conflict_error, corrupt_error,
  corrupt_by, foreign, panicked, is_not_found, is_conflict, Result, ok, err, ◌>>=◌, ◌>>◌, refuse,
}
use compage_go.Certs.Names.{Identity, normalize_display_name, slug}
use compage_go.Certs.Sans.{Sans, Net, normalize_sans_allow_duplicates}
use compage_go.Certs.Definition.{IssuerDefinition}
use compage_go.Certs.Crypto.{
  Name, Cert, Crypto, PublicKey, ca_name, or_error, parse_cert_der, parse_key_der,
  public_keys_equal, subject_key_id,
}
use compage_go.Certs.State.{IssuerVersion, IssuerRecord, State, clock_skew}
use compage_go.Certs.Store.{Store, LedgerRecord, step, load, read_ledger, validate_ledger_records}
use compage_go.Certs.Ledger.{usages, lookup_ledger, list_ledger, append_ledger}
use compage_go.Go.Unicode.{to_lower}
use compage_go.Certs.Request.{
  Csr, SignOptions, Signer, Leaf, strict_csr_identity, choose_profile, admit,
}

-- How a round ends: with a leaf, with an error, or with another round.
pub data Round : Type 0 where
  issued : Bytes × Cert → Round
  failed : Failure → Round
  again : Round

pub Round-cases :
    (o : Round)
    → ((c : Bytes × Cert) × (o ≡ issued c)) ⊎ (((e : Failure) × (o ≡ failed e)) ⊎ (o ≡ again))
Round-cases (issued c) = inl (c, refl)
Round-cases (failed e) = inr (inl (e, refl))
Round-cases again = inr (inr refl)

module _ (x : Crypto) where
  open x use {Key, public, random_serial, create_certificate, parse_certificate, fingerprint}

  pub record IssuerManager : Type 0 where
    pub name : Bytes
    pub slug_name : Bytes
    pub revision : ℕ
    pub definition : IssuerDefinition
    pub version : IssuerVersion
    pub issuer_cert : Cert
    pub root_cert : Cert
    pub signer : Key
    pub mode : Bytes
    pub closed : Bool

  -- A manager at work on a store: the number of the next draw, and of the next access.
  pub record Run : Type 0 where
    pub manager : IssuerManager
    pub store : Store
    pub draw : ℕ
    pub turn : ℕ

  -- the part that signing reads
  abbrev pub signer_of : IssuerManager → Signer
  signer_of m = record { definition = m.definition; issuer_cert = m.issuer_cert; closed = m.closed }

  -- `reload` behind the load; `slug_name` and `name` are those of the manager
  unfoldable pub take_issuer : Bytes → Bytes → Bool → State → Result IssuerManager
  take_issuer name slug_name closed s = do
    issuer ← named (lookup slug_name s.issuers)
    v ← or_error (lookup issuer.active_version issuer.versions) panicked
    key ← parse_key_der x v.key_der []
    cert ← parse_cert_der x v.certificate_der
    record_of_root ← or_error (lookup v.root_generation s.roots) panicked
    root ← parse_cert_der x record_of_root.certificate_der
    refuse (not (public_keys_equal x (public key) cert.public_key))
        (corrupt_error (lit "issuer private key mismatch"))
    ok (record {
      name = name;
      slug_name = slug_name;
      revision = s.revision;
      definition = issuer.definition;
      version = v;
      issuer_cert = cert;
      root_cert = root;
      signer = key;
      mode = s.spec.issuance_mode;
      closed = closed;
    })
    where
      named : Option IssuerRecord → Result IssuerRecord
      named none = err (not_found_error (lit "issuer "))
      named (some issuer) =
          if issuer.definition.name == name
          then ok issuer
          else err (not_found_error (lit "issuer "))

  -- the template of a leaf, and what its request asks for
  abbrev pub leaf_template : IssuerManager → Leaf → PublicKey → Bytes → Bytes → Cert
  leaf_template m leaf pub_key serial ski = record {
    serial = serial;
    subject = ca_name leaf.leaf_subject leaf.leaf_subject.common_name;
    issuer = m.issuer_cert.subject;
    not_before = leaf.issued_at - clock_skew;
    not_after = leaf.expires_at;
    is_ca = false;
    basic_constraints_valid = true;
    max_path_len = pos 0;
    max_path_len_zero = false;
    cert_sign = false;
    crl_sign = false;
    subject_key_id = ski;
    authority_key_id = m.issuer_cert.subject_key_id;
    public_key = pub_key;
    digital_signature = true;
    other_bits = 0;
    ext_key_usage = usages leaf.leaf_profile;
    sans = leaf.leaf_sans;
  }

  abbrev pub entry_of : IssuerManager → Leaf → Bytes → Bytes → Cert → LedgerRecord
  entry_of m leaf serial der cert = record {
    authority_revision = m.revision;
    fingerprint = fingerprint cert;
    issuer = m.slug_name;
    issuer_version = m.version.version;
    serial = serial;
    certificate_der = der;
    subject = leaf.leaf_subject;
    sans = leaf.leaf_sans;
    profile = leaf.leaf_profile;
    issued_at = leaf.issued_at;
    expires_at = leaf.expires_at;
  }

  -- the template signed and parsed
  unfoldable pub make_leaf :
      IssuerManager → Leaf → PublicKey → Bytes → Bytes → Result (Bytes × Cert)
  make_leaf m leaf pub_key serial ski = do
    der ←
        or_error
          (create_certificate (leaf_template m leaf pub_key serial ski) m.issuer_cert pub_key
            m.signer)
          foreign
    cert ← or_error (parse_certificate der) (corrupt_by (lit "generated leaf certificate") foreign)
    ok (der, cert)

module _ (x : Crypto) (parse_scheme : Bytes → Option Bytes)
    (definitions_equal : IssuerDefinition → IssuerDefinition → Bool) (net : Net)
    (others : ℕ → Store → Store) where
  -- what the store is at the next access
  abbrev pub visited : Run x → Run x
  visited w = record w { store = others w.turn w.store; turn = w.turn + 1 }

  -- a load at the next access
  unfoldable pub visit : Run x → Result State × Run x
  visit w =
      let st = others w.turn w.store in
      (load x parse_scheme definitions_equal st, record w { store = step st; turn = w.turn + 1 })

  unfoldable pub reload : Run x → Result (Unit {0}) × Run x
  reload w =
      let (loaded, w') = visit w in taken (loaded >>= take_issuer x m.name m.slug_name m.closed) w'
    where
      m : IssuerManager x
      m = w.manager

      taken : Result (IssuerManager x) → Run x → Result (Unit {0}) × Run x
      taken (err e) w' = (err e, w')
      taken (ok m') w' = (ok tt, record w' { manager = m' })

  -- `if state.Revision != m.revision { reload }`
  unfoldable pub catch_up : State → Run x → Result (Unit {0}) × Run x
  catch_up s w = if s.revision == w.manager.revision then (ok tt, w) else reload w

  -- before a request is judged: of an authority that keeps a ledger, its present state and the ledger
  unfoldable pub refresh : Run x → Result (Unit {0}) × Run x
  refresh w = if w.manager.mode == lit "ledger" then loaded (visit w) else (ok tt, w)
    where
      listed : State → Result (Unit {0}) × Run x → Result (Unit {0}) × Run x
      listed s (err e, w') = (err e, w')
      listed s (ok _, w') =
          let w'' = visited w' in
          (
            read_ledger w''.store >>= validate_ledger_records x parse_scheme definitions_equal s,
            w'',
          )

      loaded : Result State × Run x → Result (Unit {0}) × Run x
      loaded (err e, w') = (err e, w')
      loaded (ok s, w') = listed s (catch_up s w')

  -- Behind a conflict: is there another revision, and does the leaf still fit then?
  unfoldable pub retry : Leaf → Run x → Result (Unit {0}) × Run x
  retry leaf w = loaded (visit w)
    where
      fits : Result (Unit {0}) × Run x → Result (Unit {0}) × Run x
      fits (err e, w') = (err e, w')
      fits (ok _, w') = (
        refuse (ltb w'.manager.issuer_cert.not_after (leaf.expires_at + clock_skew))
            (validation_error (lit "leaf validity exceeds reloaded issuer remaining lifetime")),
        w',
      )

      loaded : Result State × Run x → Result (Unit {0}) × Run x
      loaded (err e, w') = (err e, w')
      loaded (ok s, w') =
          if s.revision == w'.manager.revision then (ok tt, w') else fits (reload w')

  -- `appendLedger` at the next access
  unfoldable pub recorded : Leaf → Bytes → Bytes × Cert → Run x → Round × Run x
  recorded leaf serial (der, cert) w =
      let (r, st) =
        append_ledger x parse_scheme definitions_equal net
          (entry_of x w.manager leaf serial der cert) (others w.turn w.store) in
      appended r (record w { store = st; turn = w.turn + 1 })
    where
      retried : Result (Unit {0}) × Run x → Round × Run x
      retried (err e, w') = (failed e, w')
      retried (ok _, w') = (again, w')

      appended : Result (Unit {0}) → Run x → Round × Run x
      appended (ok _) w' = (issued (der, cert), w')
      appended (err e) w' = if is_conflict e then retried (retry leaf w') else (failed e, w')

  -- Is the serial free in the ledger?
  unfoldable pub is_free : Bytes → Run x → Result Bool
  is_free serial w =
      found (lookup_ledger w.manager.slug_name w.manager.version.version serial w.store)
    where
      found : Result LedgerRecord → Result Bool
      found (ok r) = ok false
      found (err e) = if is_not_found e then ok true else err e

  -- with a serial that is free
  unfoldable pub signed : Leaf → PublicKey → Bytes → Bytes → Run x → Round × Run x
  signed leaf pub_key ski serial w = made (make_leaf x w.manager leaf pub_key serial ski)
    where
      made : Result (Bytes × Cert) → Round × Run x
      made (err e) = (failed e, w)
      made (ok c) =
          if w.manager.mode == lit "ledger" then recorded leaf serial c w else (issued c, w)

  -- one round of the loop over serials
  unfoldable pub round : Leaf → PublicKey → Bytes → Run x → Round × Run x
  round leaf pub_key ski w = drawn (x.random_serial w.draw)
    where
      next : Run x
      next = record w { draw = w.draw + 1 }

      looked : Bytes → Result Bool → Run x → Round × Run x
      looked serial (err e) w' = (failed e, w')
      looked serial (ok false) w' = (again, w')
      looked serial (ok true) w' = signed leaf pub_key ski serial w'

      drawn : Option Bytes → Round × Run x
      drawn none = (failed foreign, next)
      drawn (some serial) =
          if w.manager.mode == lit "ledger"
          then looked serial (is_free serial (visited next)) (visited next)
          else signed leaf pub_key ski serial next

  -- at most `n` rounds
  unfoldable pub rounds : ℕ → Leaf → PublicKey → Bytes → Run x → Result (Bytes × Cert) × Run x
  rounds zero leaf pub_key ski w =
      (err (conflict_error (lit "could not allocate a unique certificate serial")), w)
  rounds (suc n) leaf pub_key ski w =
      let (o, w') = round leaf pub_key ski w in ended o w' (rounds n leaf pub_key ski w')
    where
      ended : Round → Run x → Result (Bytes × Cert) × Run x → Result (Bytes × Cert) × Run x
      ended (issued c) w' rest = (ok c, w')
      ended (failed e) w' rest = (err e, w')
      ended again w' rest = rest

  -- the checks of `SignCSR` before the ledger is looked at
  unfoldable pub check_request : SignOptions → Result Csr → Bool → Result (Unit {0})
  check_request o csr closed = do
    profile ← choose_profile o.profile
    request ← csr
    asked ← strict_csr_identity request
    asked_sans ← normalize_sans_allow_duplicates net request.sans
    refuse closed (conflict_error (lit "issuer manager is closed"))

  -- `SignCSR`: `csr` is the request that `parseCSRPEM` returns, or its error, and `pub_key` its key.
  -- The certificate is returned with its DER.
  unfoldable pub sign_csr :
      SignOptions → Result Csr → PublicKey → ℕ → Run x → Result (Bytes × Cert) × Run x
  sign_csr o csr pub_key now w = checked (check_request o csr w.manager.closed)
    where
      keyed : Leaf → Run x → Result Bytes → Result (Bytes × Cert) × Run x
      keyed leaf w' (err e) = (err e, w')
      keyed leaf w' (ok ski) = rounds 8 leaf pub_key ski w'

      admitted : Run x → Result Leaf → Result (Bytes × Cert) × Run x
      admitted w' (err e) = (err e, w')
      admitted w' (ok leaf) = keyed leaf w' (subject_key_id x pub_key)

      refreshed : Result (Unit {0}) × Run x → Result (Bytes × Cert) × Run x
      refreshed (err e, w') = (err e, w')
      refreshed (ok _, w') = admitted w' (admit net o csr (ok tt) now (signer_of x w'.manager))

      checked : Result (Unit {0}) → Result (Bytes × Cert) × Run x
      checked (err e) = (err e, w)
      checked (ok _) = refreshed (refresh w)

  -- `NewIssuerManager` behind the options and the check of the store's rights
  unfoldable pub new_issuer_manager : Bytes → Store → Result (IssuerManager x)
  new_issuer_manager given st = do
    name ← normalize_display_name given
    s ← load x parse_scheme definitions_equal st
    take_issuer x name (slug name) false s

  -- `Reload`
  unfoldable pub reload_open : Run x → Result (Unit {0}) × Run x
  reload_open w =
      if w.manager.closed
      then (err (conflict_error (lit "issuer manager is closed")), w)
      else reload w

-- `Close`, which drops the signer too
unfoldable pub close_issuer : {x : Crypto} → IssuerManager x → IssuerManager x
close_issuer m = record m { closed = true }

-- `LookupCertificate` and `ListCertificates`
unfoldable pub lookup_certificate :
    {x : Crypto} → IssuerManager x → ℕ → Bytes → Store → Result LedgerRecord
lookup_certificate m version serial st = do
  refuse (not (m.mode == lit "ledger")) (unavailable_error (lit "issuance ledger is disabled"))
  lookup_ledger m.slug_name version (to_lower serial) st

unfoldable pub list_certificates :
    {x : Crypto} → IssuerManager x → Bytes → ℤ → Store → Result (List LedgerRecord × Bytes)
list_certificates m cursor limit st = do
  refuse (not (m.mode == lit "ledger")) (unavailable_error (lit "issuance ledger is disabled"))
  list_ledger cursor limit st
