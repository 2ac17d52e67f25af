-- ===== src/Certs/Issuing/Recorded.antt =====
-- What the ledger has of the leaves that `SignCSR` returns.
use compage_go.Base.{
  ℕ, zero, suc, ◌+◌, ◌≡◌, inl, inr, refl, sym, ap, ◌∙◌, subst, Bool, true, false, Option, some,
  List, [], ◌∷◌, ◌++◌, ◌==◌, nat_comparable, nat_beq_iff, list_comparable, Bytes, lit, arith,
  Bool-cases, Option-cases,
}
use compage_go.Go.Map.{Map, lookup}
use compage_go.Certs.Errors.{is_conflict, Result, ok, err, Result-cases, >>-eq-ok}
use compage_go.Certs.Definition.{IssuerDefinition}
use compage_go.Certs.Sans.{Net}
use compage_go.Certs.Crypto.{Cert, Crypto, PublicKey, parse_cert_der, subject_key_id}
use compage_go.Certs.State.{IssuerVersion, IssuerRecord, State}
use compage_go.Certs.Validate.{validate_state, check_issuer, check_issuers, check_active}
use compage_go.Certs.Store.{
  Store, LedgerRecord, step, next_refusal, decoded, load, refused, read_ledger,
}
use compage_go.Certs.Ledger.{
  validate_ledger_record, validate_ledger_authority, check_new, write_record, append_record,
  append_ledger,
}
use compage_go.Certs.Request.{Csr, SignOptions, Leaf, admit}
use compage_go.Certs.Issuing.{
  IssuerManager, Run, Round, Round-cases, issued, failed, again, signer_of, entry_of, leaf_template,
  make_leaf, visited, refresh, retry, recorded, is_free, signed, round, rounds, check_request,
  sign_csr,
}
use compage_go.Certs.Trust.Rotation.{InLedger, IsUnder}

module _ (x : Crypto) (parse_scheme : Bytes → Option Bytes)
    (definitions_equal : IssuerDefinition → IssuerDefinition → Bool) where
  -- an issuer that passes has an active version, which is under the active root
  check_issuer-active :
      (s : State) (slug : Bytes) (i : IssuerRecord)
      → check_issuer x parse_scheme definitions_equal s slug i ≡ ok tt
      → (v : IssuerVersion) × (lookup i.active_version i.versions ≡ some v)
        × (v.root_generation ≡ s.active_root)
  unfolding check_issuer check_active
  check_issuer-active s slug i h = elim (Option-cases (lookup i.active_version i.versions)) [
    | inl e ↦ absurd (ground arith)
    | inr (v, e) ↦ (v, e, ground (arith, nat_beq_iff v.root_generation s.active_root))
  ]

  check_issuers-active :
      (s : State) (issuers : Map Bytes IssuerRecord) (slug : Bytes) (i : IssuerRecord)
      → check_issuers x parse_scheme definitions_equal s issuers ≡ ok tt
      → lookup slug issuers ≡ some i
      → (v : IssuerVersion) × (lookup i.active_version i.versions ≡ some v)
        × (v.root_generation ≡ s.active_root)
  unfolding check_issuers lookup
  check_issuers-active s [] slug i h at = absurd (ground arith)
  check_issuers-active s ((k, j) ∷ rest) slug i h at =
      let parts = >>-eq-ok (check_issuer x parse_scheme definitions_equal s k j) _ h in
      elim (Bool-cases (k == slug)) [
        | inl same ↦
            let e : j ≡ i = ground arith in
            subst
              (λ u.
                (v : IssuerVersion) × (lookup u.active_version u.versions ≡ some v)
                × (v.root_generation ≡ s.active_root))
              e (check_issuer-active s k j parts.0)
        | inr ne ↦ check_issuers-active s rest slug i parts.1 (ground arith)
      ]

  validate_state-active :
      (s : State) (slug : Bytes) (i : IssuerRecord)
      → validate_state x parse_scheme definitions_equal s ≡ ok tt
      → lookup slug s.issuers ≡ some i
      → (v : IssuerVersion) × (lookup i.active_version i.versions ≡ some v)
        × (v.root_generation ≡ s.active_root)
  unfolding validate_state
  validate_state-active s slug i h at = check_issuers-active s s.issuers slug i (ground arith) at

  module _ (net : Net) where
    -- what there is when a record has been added
    pub record IsAppended (r : LedgerRecord) (st st' : Store) (s : State) : Type 0 where
      pub stored : st'.stored ≡ some s
      pub valid : validate_state x parse_scheme definitions_equal s ≡ ok tt
      pub authorized : validate_ledger_authority x net s r ≡ ok tt
      pub grown : st'.ledger ≡ st.ledger ++ r ∷ []
      pub fresh : check_new r st.ledger ≡ ok tt
      pub readable : read_ledger st' ≡ ok st'.ledger

    append_record-ok :
        (r : LedgerRecord) (st : Store)
        → (append_record r st).0 ≡ ok tt
        → ((append_record r st).1.stored ≡ st.stored)
          × ((append_record r st).1.ledger ≡ st.ledger ++ r ∷ [])
          × (check_new r st.ledger ≡ ok tt)
          × (read_ledger (append_record r st).1 ≡ ok (append_record r st).1.ledger)
    unfolding append_record write_record read_ledger refused
    append_record-ok r st h = (ground arith, ground arith, ground arith, ground arith)

    loaded_state :
        (st : Store) (s : State)
        → load x parse_scheme definitions_equal st ≡ ok s
        → (st.stored ≡ some s) × (validate_state x parse_scheme definitions_equal s ≡ ok tt)
    unfolding load decoded
    loaded_state st s h = (ground arith, ground arith)

    pub append_ledger-IsAppended :
        (r : LedgerRecord) (st : Store)
        → (append_ledger x parse_scheme definitions_equal net r st).0 ≡ ok tt
        → (s : State) × IsAppended r st
            (append_ledger x parse_scheme definitions_equal net r st).1
            s
    unfolding append_ledger
    append_ledger-IsAppended r st h = elim (Result-cases (next_refusal st.refusals)) [
      | inr (f, e) ↦ absurd (ground arith)
      | inl (u, e) ↦ elim (Result-cases (load x parse_scheme definitions_equal (step st))) [
        | inr (f, l) ↦ absurd (ground arith)
        | inl (s, l) ↦ elim (Result-cases (validate_ledger_authority x net s r)) [
          | inr (f, a) ↦ absurd (ground arith)
          | inl (v, a) ↦
              let done : (append_record r (step (step st))).0 ≡ ok tt = ground arith in
              let (same, grown, fresh, readable) = append_record-ok r (step (step st)) done in
              let (at, valid) = loaded_state (step st) s l in
              rw (e, l, a)
                (
                  s,
                  record {
                    stored = same ∙ at;
                    valid = valid;
                    authorized = ground arith;
                    grown = grown;
                    fresh = fresh;
                    readable = readable;
                  },
                )
        ]
      ]
    ]

    -- what is stored and recorded behind a leaf with this DER and this end
    pub record IsRecorded (der : Bytes) (cert : Cert) (st : Store) (s : State) (r : LedgerRecord)
        : Type 0 where
      pub stored : st.stored ≡ some s
      pub readable : read_ledger st ≡ ok st.ledger
      pub inside : InLedger r st.ledger
      pub under : IsUnder s s.active_root r
      pub same : r.certificate_der ≡ der
      pub parsed : x.parse_certificate der ≡ some cert
      pub ends : r.expires_at ≡ cert.not_after

    -- who made the certificate of a record, and when: the manager `m`, of the revision that is stored
    pub record IsMadeBy (m : IssuerManager x) (key : PublicKey) (der : Bytes) (s : State)
        (r : LedgerRecord) : Type 0 where
      pub valid : validate_state x parse_scheme definitions_equal s ≡ ok tt
      pub revision : s.revision ≡ m.revision
      pub issuer : r.issuer ≡ m.slug_name
      pub signed : (t : Cert) × (x.create_certificate t m.issuer_cert key m.signer ≡ some der)

    InLedger-last : (r : LedgerRecord) (rs : List LedgerRecord) → InLedger r (rs ++ r ∷ [])
    InLedger-last r [] = inl refl
    InLedger-last r (q ∷ rs) = inr (InLedger-last r rs)

    -- a record that may be added is of an active issuer version, under the active root
    authorized-IsUnder :
        (s : State) (r : LedgerRecord)
        → validate_state x parse_scheme definitions_equal s ≡ ok tt
        → validate_ledger_authority x net s r ≡ ok tt
        → IsUnder s s.active_root r
    unfolding validate_ledger_authority
    authorized-IsUnder s r valid h = elim (Option-cases (lookup r.issuer s.issuers)) [
      | inl e ↦ absurd (ground arith)
      | inr (i, e) ↦
          let (v, at, under) = validate_state-active s r.issuer i valid e in
          let same : i.active_version ≡ r.issuer_version =
            ground (arith, nat_beq_iff i.active_version r.issuer_version) in
          (i, v, e, subst (λ n. lookup n i.versions ≡ some v) same at, under)
    ]

    -- and it ends when its certificate does
    authorized-ends :
        (s : State) (r : LedgerRecord) (cert : Cert)
        → validate_ledger_authority x net s r ≡ ok tt
        → x.parse_certificate r.certificate_der ≡ some cert
        → r.expires_at ≡ cert.not_after
    unfolding validate_ledger_authority validate_ledger_record parse_cert_der
    authorized-ends s r cert h parsed = ground (arith, nat_beq_iff cert.not_after r.expires_at)

    -- What an added record is for the certificate that it is made of.
    appended-IsRecorded :
        (der : Bytes) (cert : Cert) (r : LedgerRecord) (st st' : Store) (s : State)
        → r.certificate_der ≡ der
        → x.parse_certificate der ≡ some cert
        → IsAppended r st st' s
        → IsRecorded der cert st' s r
    appended-IsRecorded der cert r st st' s same parsed a = record {
      stored = a.stored;
      readable = a.readable;
      inside = subst (λ l. InLedger r l) (sym a.grown) (InLedger-last r st.ledger);
      under = authorized-IsUnder s r a.valid a.authorized;
      same = same;
      parsed = parsed;
      ends = authorized-ends s r cert a.authorized (ap x.parse_certificate same ∙ parsed);
    }

    module _ (others : ℕ → Store → Store) where
      -- a leaf that a round ends with has its record, if the authority keeps a ledger
      abbrev IsKept : PublicKey → Round → Run x → Type 0
      IsKept key (issued c) w =
          (w.manager.mode == lit "ledger") ≡ true
          → (s : State) × (r : LedgerRecord) × IsRecorded c.0 c.1 w.store s r
            × IsMadeBy w.manager key c.0 s r
      IsKept key (failed e) w = Unit
      IsKept key again w = Unit

      make_leaf-parsed :
          (m : IssuerManager x) (leaf : Leaf) (key : PublicKey) (serial ski : Bytes)
          (c : Bytes × Cert)
          → make_leaf x m leaf key serial ski ≡ ok c
          → x.parse_certificate c.0 ≡ some c.1
      unfolding make_leaf
      make_leaf-parsed m leaf key serial ski c h = ground arith

      make_leaf-signed :
          (m : IssuerManager x) (leaf : Leaf) (key : PublicKey) (serial ski : Bytes)
          (c : Bytes × Cert)
          → make_leaf x m leaf key serial ski ≡ ok c
          → (t : Cert) × (x.create_certificate t m.issuer_cert key m.signer ≡ some c.0)
      unfolding make_leaf
      make_leaf-signed m leaf key serial ski c h =
          (leaf_template x m leaf key serial ski, ground arith)

      authorized-revision :
          (s : State) (r : LedgerRecord)
          → validate_ledger_authority x net s r ≡ ok tt
          → s.revision ≡ r.authority_revision
      unfolding validate_ledger_authority
      authorized-revision s r h = ground (arith, nat_beq_iff s.revision r.authority_revision)

      recorded-IsKept :
          (leaf : Leaf) (key : PublicKey) (serial ski der : Bytes) (cert : Cert) (w : Run x)
          → make_leaf x w.manager leaf key serial ski ≡ ok (der, cert)
          → IsKept key
              (recorded x parse_scheme definitions_equal net others leaf serial (der, cert) w).0
              (recorded x parse_scheme definitions_equal net others leaf serial (der, cert) w).1
      unfolding recorded
      recorded-IsKept leaf key serial ski der cert w made =
          let parsed = make_leaf-parsed w.manager leaf key serial ski (der, cert) made in
          let r = entry_of x w.manager leaf serial der cert in
          let st = others w.turn w.store in
          let after : Result (Unit {0}) × Store =
            append_ledger x parse_scheme definitions_equal net r st in
          let next : Run x = record w { store = after.1; turn = w.turn + 1 } in
          elim (Result-cases after.0) [
            | inl (u, e) ↦ rw e (λ mode.
                let (s, a) = append_ledger-IsAppended r st e in
                (
                  s,
                  r,
                  appended-IsRecorded der cert r st after.1 s refl parsed a,
                  record {
                    valid = a.valid;
                    revision = authorized-revision s r a.authorized;
                    issuer = refl;
                    signed = make_leaf-signed w.manager leaf key serial ski (der, cert) made;
                  },
                ))
            | inr (f, e) ↦ elim (Bool-cases (is_conflict f)) [
              | inr other ↦ rw (e, other) tt
              | inl conflict ↦
                  elim (Result-cases
                    (retry x parse_scheme definitions_equal net others leaf next).0) [
                      | inl (u, q) ↦ rw (e, conflict, q) tt
                      | inr (g, q) ↦ rw (e, conflict, q) tt
                    ]
            ]
          ]

      signed-IsKept :
          (leaf : Leaf) (key : PublicKey) (ski serial : Bytes) (w : Run x)
          → IsKept key
              (signed x parse_scheme definitions_equal net others leaf key ski serial w).0
              (signed x parse_scheme definitions_equal net others leaf key ski serial w).1
      unfolding signed
      signed-IsKept leaf key ski serial w =
          elim (Result-cases (make_leaf x w.manager leaf key serial ski)) [
            | inr (f, e) ↦ rw e tt
            | inl (c, e) ↦ elim (Bool-cases (w.manager.mode == lit "ledger")) [
              | inl mode ↦ rw (e, mode) (recorded-IsKept leaf key serial ski c.0 c.1 w e)
              | inr mode ↦
                  rw (e, mode)
                    (λ (h : (w.manager.mode == lit "ledger") ≡ true). absurd (ground arith))
            ]
          ]

      round-IsKept :
          (leaf : Leaf) (key : PublicKey) (ski : Bytes) (w : Run x)
          → IsKept key
              (round x parse_scheme definitions_equal net others leaf key ski w).0
              (round x parse_scheme definitions_equal net others leaf key ski w).1
      unfolding round
      round-IsKept leaf key ski w = elim (Option-cases (x.random_serial w.draw)) [
        | inl e ↦ rw e tt
        | inr (serial, e) ↦
            let next : Run x = record w { draw = w.draw + 1 } in
            let there = visited x parse_scheme definitions_equal net others next in
            elim (Bool-cases (w.manager.mode == lit "ledger")) [
              | inr mode ↦ rw (e, mode) (signed-IsKept leaf key ski serial next)
              | inl mode ↦
                  elim (Result-cases
                    (is_free x parse_scheme definitions_equal net others serial there)) [
                      | inr (f, q) ↦ rw (e, mode, q) tt
                      | inl (true, q) ↦ rw (e, mode, q) (signed-IsKept leaf key ski serial there)
                      | inl (false, q) ↦ rw (e, mode, q) tt
                    ]
            ]
      ]

      -- the same of a result
      abbrev IsKeptResult : PublicKey → Result (Bytes × Cert) → Run x → Type 0
      IsKeptResult key (ok c) w = IsKept key (issued c) w
      IsKeptResult key (err e) w = Unit

      rounds-IsKept :
          (n : ℕ) (leaf : Leaf) (key : PublicKey) (ski : Bytes) (w : Run x)
          → IsKeptResult key
              (rounds x parse_scheme definitions_equal net others n leaf key ski w).0
              (rounds x parse_scheme definitions_equal net others n leaf key ski w).1
      unfolding rounds
      rounds-IsKept zero leaf key ski w = tt
      rounds-IsKept (suc n) leaf key ski w =
          let w' = (round x parse_scheme definitions_equal net others leaf key ski w).1 in
          let kept = round-IsKept leaf key ski w in
          elim (Round-cases (round x parse_scheme definitions_equal net others leaf key ski w).0) [
            | inl (c, e) ↦ rw e (subst (λ o. IsKept key o w') e kept)
            | inr (inl (f, e)) ↦ rw e tt
            | inr (inr e) ↦ rw e (rounds-IsKept n leaf key ski w')
          ]

      sign_csr-IsKept :
          (o : SignOptions) (csr : Result Csr) (key : PublicKey) (now : ℕ) (w : Run x)
          → IsKeptResult key
              (sign_csr x parse_scheme definitions_equal net others o csr key now w).0
              (sign_csr x parse_scheme definitions_equal net others o csr key now w).1
      unfolding sign_csr
      sign_csr-IsKept o csr key now w =
          elim (Result-cases
            (check_request x parse_scheme definitions_equal net others o csr w.manager.closed)) [
              | inr (f, e) ↦ rw e tt
              | inl (u, e) ↦
                  elim (Result-cases (refresh x parse_scheme definitions_equal net others w).0) [
                    | inr (f, q) ↦ rw (e, q) tt
                    | inl (v, q) ↦
                        let w' = (refresh x parse_scheme definitions_equal net others w).1 in
                        elim (Result-cases (admit net o csr (ok tt) now (signer_of x w'.manager))) [
                          | inr (f, a) ↦ rw (e, q, a) tt
                          | inl (leaf, a) ↦ elim (Result-cases (subject_key_id x key)) [
                            | inr (f, k) ↦ rw (e, q, a, k) tt
                            | inl (ski, k) ↦ rw (e, q, a, k) (rounds-IsKept 8 leaf key ski w')
                          ]
                        ]
                  ]
            ]

      -- the same with who made the certificate
      pub sign_csr-IsMadeBy :
          (o : SignOptions) (csr : Result Csr) (key : PublicKey) (now : ℕ) (w w' : Run x)
          (der : Bytes) (cert : Cert)
          → sign_csr x parse_scheme definitions_equal net others o csr key now w
            ≡ (ok (der, cert), w')
          → (w'.manager.mode == lit "ledger") ≡ true
          → (s : State) × (r : LedgerRecord) × IsRecorded der cert w'.store s r
            × IsMadeBy w'.manager key der s r
      sign_csr-IsMadeBy o csr key now w w' der cert h mode =
          subst (λ p. IsKeptResult key p.0 p.1) h (sign_csr-IsKept o csr key now w) mode

      -- The authority keeps a ledger: behind a leaf that SignCSR returns, the ledger has a record with its
      -- certificate and its end, of an issuer version under the root that is active in what is stored
      -- then, whatever others do to the store between the steps of SignCSR.
      pub sign_csr-IsRecorded :
          (o : SignOptions) (csr : Result Csr) (key : PublicKey) (now : ℕ) (w w' : Run x)
          (der : Bytes) (cert : Cert)
          → sign_csr x parse_scheme definitions_equal net others o csr key now w
            ≡ (ok (der, cert), w')
          → (w'.manager.mode == lit "ledger") ≡ true
          → (s : State) × (r : LedgerRecord) × IsRecorded der cert w'.store s r
      sign_csr-IsRecorded o csr key now w w' der cert h mode =
          let (s, r, known, made) = sign_csr-IsMadeBy o csr key now w w' der cert h mode in
          (s, r, known)
