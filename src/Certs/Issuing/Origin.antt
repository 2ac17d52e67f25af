-- ===== src/Certs/Issuing/Origin.antt =====
-- Who signs the leaves of `SignCSR`: the active version of the issuer, under the active root, of the state
-- that has the manager's revision.
use compage_go.Base.{
  ℕ, ◌≡◌, inl, inr, sym, ap, ◌∙◌, subst, Bool, true, Option, some, [], ◌∷◌, ◌==◌, nat_comparable,
  nat_beq_iff, list_comparable, list_same_iff, Bytes, arith, Bool-cases, Option-cases,
}
use compage_go.Go.Map.{Map, lookup}
use compage_go.Certs.Errors.{Result, ok, >>-eq-ok}
use compage_go.Certs.Definition.{IssuerDefinition}
use compage_go.Certs.Sans.{Net}
use compage_go.Certs.Crypto.{Cert, Crypto, PublicKey, parse_cert_der, public_keys_equal}
use compage_go.Certs.State.{RootRecord, IssuerVersion, IssuerRecord, State}
use compage_go.Certs.Validate.{
  validate_state, check_issuer, check_issuers, check_version, check_versions, check_active,
}
use compage_go.Certs.Store.{Store, LedgerRecord, decoded, load}
use compage_go.Certs.Ledger.{append_record, write_record, append_ledger}
use compage_go.Certs.Request.{Csr, SignOptions}
use compage_go.Certs.Issuing.{IssuerManager, Run, take_issuer, sign_csr}
use compage_go.Certs.Issuing.Keeps.{sign_csr-keeps}
use compage_go.Certs.Issuing.Recorded.{IsMadeBy}

module _ (x : Crypto) (parse_scheme : Bytes → Option Bytes)
    (definitions_equal : IssuerDefinition → IssuerDefinition → Bool) where
  check_versions-at :
      (s : State) (slug : Bytes) (i : IssuerRecord) (m : Map ℕ IssuerVersion) (n : ℕ)
      (v : IssuerVersion)
      → check_versions x parse_scheme definitions_equal s slug i m ≡ ok tt
      → lookup n m ≡ some v
      → check_version x parse_scheme definitions_equal s slug i n v ≡ ok tt
  unfolding check_versions lookup
  check_versions-at s slug i [] n v h at = absurd (ground arith)
  check_versions-at s slug i ((k, u) ∷ rest) n v h at =
      let parts = >>-eq-ok (check_version x parse_scheme definitions_equal s slug i k u) _ h in
      elim (Bool-cases (k == n)) [
        | inl same ↦
            let e : u ≡ v = ground arith in
            let f : k ≡ n = (nat_beq_iff k n).0 same in
            subst (λ t. check_version x parse_scheme definitions_equal s slug i n t ≡ ok tt) e
              (subst (λ t. check_version x parse_scheme definitions_equal s slug i t u ≡ ok tt) f
                parts.0)
        | inr ne ↦ check_versions-at s slug i rest n v parts.1 (ground arith)
      ]

  check_issuers-at :
      (s : State) (m : Map Bytes IssuerRecord) (slug : Bytes) (i : IssuerRecord)
      → check_issuers x parse_scheme definitions_equal s m ≡ ok tt
      → lookup slug m ≡ some i
      → check_issuer x parse_scheme definitions_equal s slug i ≡ ok tt
  unfolding check_issuers lookup
  check_issuers-at s [] slug i h at = absurd (ground arith)
  check_issuers-at s ((k, j) ∷ rest) slug i h at =
      let parts = >>-eq-ok (check_issuer x parse_scheme definitions_equal s k j) _ h in
      elim (Bool-cases (k == slug)) [
        | inl same ↦
            let e : j ≡ i = ground arith in
            let f : k ≡ slug = (list_same_iff k slug).0 same in
            subst (λ t. check_issuer x parse_scheme definitions_equal s slug t ≡ ok tt) e
              (subst (λ t. check_issuer x parse_scheme definitions_equal s t j ≡ ok tt) f parts.0)
        | inr ne ↦ check_issuers-at s rest slug i parts.1 (ground arith)
      ]

  -- a version's certificate verifies under its root's
  abbrev IsUnderRoot : State → IssuerVersion → Type 0
  IsUnderRoot s v =
      (root : RootRecord) × (rc : Cert) × (c : Cert) × (lookup v.root_generation s.roots
        ≡ some root)
      × (x.parse_certificate root.certificate_der ≡ some rc)
      × (x.parse_certificate v.certificate_der ≡ some c)
      × (x.signed_by c rc ≡ true)

  check_version-IsUnderRoot :
      (s : State) (slug : Bytes) (i : IssuerRecord) (n : ℕ) (v : IssuerVersion)
      → check_version x parse_scheme definitions_equal s slug i n v ≡ ok tt
      → IsUnderRoot s v
  unfolding check_version parse_cert_der
  check_version-IsUnderRoot s slug i n v h =
      elim (Option-cases (lookup v.root_generation s.roots)) [
        | inl e ↦ elim (Option-cases (x.parse_certificate v.certificate_der)) [
          | inl q ↦ absurd (ground arith)
          | inr (c, q) ↦ absurd (ground arith)
        ]
        | inr (root, e) ↦ elim (Option-cases (x.parse_certificate v.certificate_der)) [
          | inl q ↦ absurd (ground arith)
          | inr (c, q) ↦ elim (Option-cases (x.parse_certificate root.certificate_der)) [
            | inl p ↦ absurd (ground arith)
            | inr (rc, p) ↦ (root, rc, c, e, p, q, ground arith)
          ]
        ]
      ]

  -- the active version of an issuer in a valid state
  active-IsUnderRoot :
      (s : State) (slug : Bytes) (i : IssuerRecord) (v : IssuerVersion)
      → validate_state x parse_scheme definitions_equal s ≡ ok tt
      → lookup slug s.issuers ≡ some i
      → lookup i.active_version i.versions ≡ some v
      → (v.root_generation ≡ s.active_root) × IsUnderRoot s v
  unfolding validate_state check_issuer check_active
  active-IsUnderRoot s slug i v valid at there =
      let issuer = check_issuers-at s s.issuers slug i (ground arith) at in
      let versions : check_versions x parse_scheme definitions_equal s slug i i.versions ≡ ok tt =
        ground arith in
      (
        ground (arith, nat_beq_iff v.root_generation s.active_root),
        check_version-IsUnderRoot s slug i i.active_version v
            (check_versions-at s slug i i.versions i.active_version v versions there),
      )

  -- what a manager that is taken from a state has of it
  pub record IsTaken (m : IssuerManager x) (s : State) : Type 0 where
    pub issuer : IssuerRecord
    pub version : IssuerVersion
    pub issuer_at : lookup m.slug_name s.issuers ≡ some issuer
    pub version_at : lookup issuer.active_version issuer.versions ≡ some version
    pub parsed : x.parse_certificate version.certificate_der ≡ some m.issuer_cert
    pub matches : public_keys_equal x (x.public m.signer) m.issuer_cert.public_key ≡ true

  take_issuer-IsTaken :
      (name slug : Bytes) (closed : Bool) (s : State) (m : IssuerManager x)
      → take_issuer x name slug closed s ≡ ok m
      → IsTaken m s
        × (s.revision ≡ m.revision)
        × (m.name ≡ name)
        × (m.slug_name ≡ slug)
        × (m.closed ≡ closed)
  unfolding take_issuer parse_cert_der
  take_issuer-IsTaken name slug closed s m h = elim (Option-cases (lookup slug s.issuers)) [
    | inl e ↦ absurd (ground arith)
    | inr (i, e) ↦ elim (Option-cases (lookup i.active_version i.versions)) [
      | inl f ↦ absurd (ground arith)
      | inr (v, f) ↦ elim (Option-cases (x.parse_certificate v.certificate_der)) [
        | inl q ↦ absurd (ground arith)
        | inr (c, q) ↦
            let same : m.slug_name ≡ slug = ground arith in
            let issuer_cert : c ≡ m.issuer_cert = ground arith in
            (
              record {
                issuer = i;
                version = v;
                issuer_at = ap (λ t. lookup t s.issuers) same ∙ e;
                version_at = f;
                parsed = q ∙ ap (λ t. some t) issuer_cert;
                matches = ground arith;
              },
              ground arith,
              ground arith,
              same,
              ground arith,
            )
      ]
    ]
  ]

  -- A certificate with this DER is signed by the active version of an issuer of the state: with the key
  -- of the version's certificate, which in turn is signed by the root `g`.
  pub record IsSignedUnder (s : State) (g : ℕ) (key : PublicKey) (der : Bytes) : Type 0 where
    pub slug : Bytes
    pub issuer : IssuerRecord
    pub version : IssuerVersion
    pub parent : Cert
    pub signer : x.Key
    pub template : Cert
    pub root : RootRecord
    pub root_cert : Cert
    pub issuer_at : lookup slug s.issuers ≡ some issuer
    pub version_at : lookup issuer.active_version issuer.versions ≡ some version
    pub generation : version.root_generation ≡ g
    pub parsed : x.parse_certificate version.certificate_der ≡ some parent
    pub matches : public_keys_equal x (x.public signer) parent.public_key ≡ true
    pub signed : x.create_certificate template parent key signer ≡ some der
    pub root_at : lookup g s.roots ≡ some root
    pub root_parsed : x.parse_certificate root.certificate_der ≡ some root_cert
    pub below : x.signed_by parent root_cert ≡ true

  pub made-IsSignedUnder :
      (net : Net) (m : IssuerManager x) (key : PublicKey) (der : Bytes) (s : State)
      (r : LedgerRecord)
      → IsTaken m s
      → IsMadeBy x parse_scheme definitions_equal net m key der s r
      → IsSignedUnder s s.active_root key der
  made-IsSignedUnder net m key der s r taken made =
      let (generation, (root, rc, c, at, root_parsed, parsed, below)) =
        active-IsUnderRoot s m.slug_name taken.issuer taken.version made.valid taken.issuer_at
          taken.version_at in
      let (template, signed) = made.signed in
      let version_parsed = taken.parsed in
      let same : c ≡ m.issuer_cert = ground arith in
      record {
        slug = m.slug_name;
        issuer = taken.issuer;
        version = taken.version;
        parent = m.issuer_cert;
        signer = m.signer;
        template = template;
        root = root;
        root_cert = rc;
        issuer_at = taken.issuer_at;
        version_at = taken.version_at;
        generation = generation;
        parsed = taken.parsed;
        matches = taken.matches;
        signed = signed;
        root_at = ap (λ g. lookup g s.roots) (sym generation) ∙ at;
        root_parsed = root_parsed;
        below = subst (λ t. x.signed_by t rc ≡ true) same below;
      }

  loaded_stored :
      (st : Store) (s : State)
      → load x parse_scheme definitions_equal st ≡ ok s
      → st.stored ≡ some s
  unfolding load decoded
  loaded_stored st s h = ground arith

  -- `history` has the one state of each revision of a store.
  module _ (history : ℕ → State) where
    abbrev pub InHistory : Store → Type 0
    InHistory st = (s : State) → st.stored ≡ some s → s ≡ history s.revision

    -- a manager that is as the state of its revision makes it
    abbrev pub IsOf : IssuerManager x → Type 0
    IsOf m = take_issuer x m.name m.slug_name m.closed (history m.revision) ≡ ok m

    taken-IsOf :
        (m m' : IssuerManager x) (st : Store) (s : State)
        → InHistory st
        → load x parse_scheme definitions_equal st ≡ ok s
        → take_issuer x m.name m.slug_name m.closed s ≡ ok m'
        → IsOf m'
    taken-IsOf m m' st s there loaded taken =
        let (_, revision, name, slug, closed) =
          take_issuer-IsTaken m.name m.slug_name m.closed s m' taken in
        let same : s ≡ history m'.revision =
          there s (loaded_stored st s loaded) ∙ ap history revision in
        ap (λ n. take_issuer x n m'.slug_name m'.closed (history m'.revision)) name
        ∙ (ap (λ n. take_issuer x m.name n m'.closed (history m'.revision)) slug
            ∙ (ap (λ n. take_issuer x m.name m.slug_name n (history m'.revision)) closed
                ∙ (ap (λ t. take_issuer x m.name m.slug_name m.closed t) (sym same) ∙ taken)))

    -- the manager's own revision, if that is what is stored
    pub IsOf-IsTaken :
        (m : IssuerManager x) (st : Store) (s : State)
        → IsOf m
        → InHistory st
        → st.stored ≡ some s
        → s.revision ≡ m.revision
        → IsTaken m s
    IsOf-IsTaken m st s taken there stored revision =
        let same : s ≡ history m.revision = there s stored ∙ ap history revision in
        (take_issuer-IsTaken m.name m.slug_name m.closed s m
          (ap (λ t. take_issuer x m.name m.slug_name m.closed t) same ∙ taken)).0

    append_ledger-stored :
        (net : Net) (r : LedgerRecord) (st : Store)
        → (append_ledger x parse_scheme definitions_equal net r st).1.stored ≡ st.stored
    unfolding append_ledger append_record write_record
    append_ledger-stored net r st = ground arith

    -- The manager and the store behind SignCSR are of the history, if they were before.
    pub sign_csr-IsOf :
        (net : Net) (others : ℕ → Store → Store)
        → ((n : ℕ) (st : Store) → InHistory st → InHistory (others n st))
        → (o : SignOptions) (csr : Result Csr) (key : PublicKey) (now : ℕ) (w : Run x)
        → IsOf w.manager
        → InHistory w.store
        → let w' = (sign_csr x parse_scheme definitions_equal net others o csr key now w).1 in
          IsOf w'.manager × InHistory w'.store
    sign_csr-IsOf net others by_others o csr key now w taken there =
        sign_csr-keeps x parse_scheme definitions_equal net others (λ m st. IsOf m × InHistory st)
          (λ m n st h. (h.0, by_others n st h.1)) (λ m st h. h)
          (λ m r st h. (h.0, λ s at. h.1 s (sym (append_ledger-stored net r st) ∙ at)))
          (λ m m' st s h loaded took. (taken-IsOf m m' st s h.1 loaded took, h.1)) o csr key now w
          (taken, there)
