-- ===== src/Certs/Authority/Ensure/Stuck.antt =====
-- `Ensure` where an issuer is to be renewed under a root that does not last as long as its successor
-- would.
use compage_go.Base.{
  ℕ, ◌+◌, ◌<◌, ◌≡◌, ◌≢◌, inl, inr, refl, sym, ◌∙◌, Bool, true, false, Option, some, List, [], ◌∷◌,
  ◌==◌, nat_comparable, list_comparable, list_same_iff, Bytes, arith, Option-cases, subst, length,
  ◌++◌,
}
use compage_go.Base.Members.{contains}
use compage_go.Go.Map.{Map, lookup, put, lookup-put_other, key-cases}
use compage_go.Go.Strconv.{ℤ}
use compage_go.Certs.Errors.{ok, Result-cases}
use compage_go.Certs.Definition.{IssuerDefinition}
use compage_go.Certs.Crypto.{Cert, Crypto, parse_cert_der}
use compage_go.Certs.State.{
  AuthoritySpec, RootRecord, IssuerVersion, IssuerRecord, State, clock_skew,
}
use compage_go.Certs.Store.{Store}
use compage_go.Certs.Authority.{prepare_versions, prepare_issuers, staged}
use compage_go.Certs.Making.{make_issuer}
use compage_go.Certs.Manager.{Manager, add_time, active_root_signer}
use compage_go.Certs.Authority.Ensure.{
  add_issuers, rotate, rotate_issuers, reconcile, ensure_change,
}
use compage_go.Certs.Authority.Due.{
  EnsureOptions, EnsureResult, active_certificate, active_root_certificate, due_issuers, is_due,
}

module _ (x : Crypto) where
  -- an issuer that is due is among the slugs that are collected
  due_issuers-contains :
      (now : ℕ) (before : Map Bytes ℤ) (issuers : Map Bytes IssuerRecord) (due : List Bytes)
      (slug : Bytes) (i : IssuerRecord) (cert : Cert)
      → due_issuers x now before issuers ≡ ok due
      → lookup slug issuers ≡ some i
      → active_certificate x i ≡ ok cert
      → is_due now (lookup i.definition.name before) cert.not_after ≡ true
      → contains due slug ≡ true
  unfolding due_issuers lookup
  due_issuers-contains now before [] due slug i cert h at c d = absurd (ground arith)
  due_issuers-contains now before ((k, j) ∷ rest) due slug i cert h at c d =
      elim (Result-cases (active_certificate x j)) [
        | inr (e, q) ↦ absurd (ground arith)
        | inl (cj, q) ↦ elim (Result-cases (due_issuers x now before rest)) [
          | inr (e, r) ↦ absurd (ground arith)
          | inl (others, r) ↦ elim (key-cases k slug) [
            | inl same ↦
                let ij : j ≡ i = ground (arith, list_same_iff k slug) in
                let cc_ : cj ≡ cert = ground arith in
                let dj : is_due now (lookup j.definition.name before) cj.not_after ≡ true =
                  ground arith in
                ground (arith, list_same_iff k slug)
            | inr ne ↦
                let ih =
                  due_issuers-contains now before rest others slug i cert r
                    (ground (arith, list_same_iff k slug)) c d in
                ground arith
          ]
        ]
      ]

  make_issuer_fails :
      (spec : AuthoritySpec) (g n : ℕ) (d : IssuerDefinition) (root : RootRecord) (key : x.Key)
      (now draw : ℕ) (rc : Cert) (v : IssuerVersion)
      → x.parse_certificate root.certificate_der ≡ some rc
      → rc.not_after < add_time now d.validity + clock_skew
      → make_issuer x spec g n d root key now draw ≢ ok v
  unfolding make_issuer parse_cert_der
  make_issuer_fails spec g n d root key now draw rc v e long h = ground arith

  prepare_versions-fails :
      (spec : AuthoritySpec) (g : ℕ) (root : RootRecord) (key : x.Key) (now : ℕ) (rc : Cert)
      (slug : Bytes) (d : IssuerDefinition)
      → x.parse_certificate root.certificate_der ≡ some rc
      → rc.not_after < add_time now d.validity + clock_skew
      → (slugs : List Bytes) (draw : ℕ) (issuers : Map Bytes IssuerRecord) (pending : Map Bytes ℕ)
        (r : Map Bytes IssuerRecord × Map Bytes ℕ)
      → contains slugs slug ≡ true
      → ((i : IssuerRecord) × (lookup slug issuers ≡ some i) × (i.definition ≡ d))
      → prepare_versions x spec g root key now draw slugs issuers pending ≢ ok r
  unfolding prepare_versions
  prepare_versions-fails spec g root key now rc slug d parsed long [] draw issuers pending r c there
        h =
      absurd (ground arith)
  prepare_versions-fails spec g root key now rc slug d parsed long (k ∷ slugs) draw issuers pending
        r c (i, at, is) h =
      elim (Option-cases (lookup k issuers)) [
        | inl e ↦ absurd (ground arith)
        | inr (j, e) ↦
            elim (Result-cases
              (make_issuer x spec g (j.active_version + 1) j.definition root key now draw)) [
                | inr (f, q) ↦ absurd (ground arith)
                | inl (v, q) ↦ elim (key-cases k slug) [
                  | inl same ↦
                      let e' : lookup slug issuers ≡ some j =
                        subst (λ t. lookup t issuers ≡ some j) same e in
                      let dj : d ≡ j.definition = ground arith in
                      make_issuer_fails spec g (j.active_version + 1) j.definition root key now draw
                        rc v parsed
                        (subst
                          (λ t.
                            rc.not_after < add_time now (IssuerDefinition.validity t) + clock_skew)
                          dj long)
                        q
                  | inr ne ↦
                      prepare_versions-fails spec g root key now rc slug d parsed long slugs
                        (draw + 1)
                        (put k (record j { versions = put (j.active_version + 1) v j.versions })
                          issuers)
                        (put k (j.active_version + 1) pending) r
                        (ground (arith, list_same_iff k slug))
                        (i, lookup-put_other k slug _ issuers ne ∙ at, is) (ground arith)
                ]
              ]
      ]

module _ (x : Crypto) (parse_scheme : Bytes → Option Bytes)
    (definitions_equal : IssuerDefinition → IssuerDefinition → Bool) (o : EnsureOptions) (now : ℕ)
    (st : Store) (slug : Bytes) (i : IssuerRecord) (cert rc : Cert)
    (current : active_certificate x i ≡ ok cert)
    (due : is_due now (lookup i.definition.name o.issuer_rotate_before) cert.not_after ≡ true)
    (lasts : is_due now o.root_rotate_before rc.not_after ≡ false)
    (short : rc.not_after < add_time now i.definition.validity + clock_skew) where
  rotate_issuers_fails :
      (names slugs : List Bytes) (s s' : State) (m : Manager)
      → active_root_certificate x s ≡ ok rc
      → lookup slug s.issuers ≡ some i
      → contains slugs slug ≡ true
      → (rotate_issuers x parse_scheme definitions_equal o now st names slugs s m).0 ≢ ok s'
  unfolding rotate_issuers prepare_issuers staged active_root_certificate
  rotate_issuers_fails names [] s s' m root at c h = absurd (ground arith)
  rotate_issuers_fails names (k ∷ slugs) s s' m root at c h =
      elim (Option-cases (lookup s.active_root s.roots)) [
        | inl e ↦ absurd (ground arith)
        | inr (r, e) ↦ elim (Result-cases (active_root_signer x m.config m.generated st s)) [
          | inr (f, q) ↦ absurd (ground arith)
          | inl (key, q) ↦
              let loop =
                prepare_versions x s.spec s.active_root r key now m.seed (k ∷ slugs) s.issuers [] in
              elim (Result-cases loop) [
                | inr (f, w) ↦ absurd (ground arith)
                | inl (t, w) ↦
                    prepare_versions-fails x s.spec s.active_root r key now rc slug i.definition
                      (ground arith) short (k ∷ slugs) m.seed s.issuers [] t c (i, at, refl) w
              ]
        ]
      ]

  rotate_fails :
      (names : List Bytes) (s s' : State) (m : Manager)
      → active_root_certificate x s ≡ ok rc
      → lookup slug s.issuers ≡ some i
      → (rotate x parse_scheme definitions_equal o now st names s m).0 ≢ ok s'
  unfolding rotate
  rotate_fails names s s' m root at h =
      elim (Result-cases (due_issuers x now o.issuer_rotate_before s.issuers)) [
        | inr (f, q) ↦ absurd (ground arith)
        | inl (slugs, q) ↦
            rotate_issuers_fails names slugs s s' m root at
              (due_issuers-contains x now o.issuer_rotate_before s.issuers slugs slug i cert q at
                current due)
              (ground arith)
      ]

  -- issuers that are added leave those that are there, and the roots
  add_issuers-keeps :
      (m : Manager) (ds : List IssuerDefinition) (draw : ℕ) (s : State) (names : List Bytes)
      (r : State × List Bytes)
      → add_issuers x parse_scheme definitions_equal o now st m ds draw s names ≡ ok r
      → active_root_certificate x s ≡ ok rc
      → lookup slug s.issuers ≡ some i
      → (active_root_certificate x r.0 ≡ ok rc) × (lookup slug r.0.issuers ≡ some i)
  unfolding add_issuers active_root_certificate
  add_issuers-keeps m [] draw s names r h root at = (ground arith, ground arith)
  add_issuers-keeps m (d ∷ ds) draw s names r h root at =
      elim (Option-cases (lookup d.slug_name s.issuers)) [
        | inr (j, e) ↦ add_issuers-keeps m ds (draw + 1) s names r (ground arith) root at
        | inl e ↦ elim (Result-cases (active_root_signer x m.config m.generated st s)) [
          | inr (f, q) ↦ absurd (ground arith)
          | inl (key, q) ↦ elim (Option-cases (lookup s.active_root s.roots)) [
            | inl f ↦ absurd (ground arith)
            | inr (old, f) ↦
                elim (Result-cases (make_issuer x s.spec s.active_root 1 d old key now draw)) [
                  | inr (g, t) ↦ absurd (ground arith)
                  | inl (v, t) ↦
                      let ne : d.slug_name ≢ slug = λ p.
                        let at' = subst (λ k. lookup k s.issuers ≡ some i) (sym p) at in
                        ground arith in
                      add_issuers-keeps m ds (draw + 1)
                        (record s {
                          issuers =
                              put d.slug_name
                                (record {
                                  definition = d;
                                  active_version = 1;
                                  versions = (1, v) ∷ [];
                                })
                                s.issuers;
                        })
                        (names ++ d.name ∷ []) r (ground arith) root
                        (lookup-put_other d.slug_name slug _ s.issuers ne ∙ at)
                ]
          ]
        ]
      ]

  -- If an issuer is due for renewal, the active root is not, and the root's certificate ends before a
  -- new version of the issuer would, by less than five minutes after it, then no call of Ensure
  -- succeeds in changing the state: neither the issuer nor the root is renewed.
  pub ensure_change_fails :
      (s s' : State) (c : Manager × EnsureResult)
      → (s.spec.id == []) ≡ false
      → active_root_certificate x s ≡ ok rc
      → lookup slug s.issuers ≡ some i
      → (ensure_change x parse_scheme definitions_equal o now st s c).0 ≢ ok s'
  unfolding ensure_change reconcile
  ensure_change_fails s s' (m, r) named root at h =
      elim (Result-cases
        (add_issuers x parse_scheme definitions_equal o now st m m.config.issuers m.seed s [])) [
          | inr (f, q) ↦ absurd (ground arith)
          | inl (t, q) ↦
              let (root', at') = add_issuers-keeps m m.config.issuers m.seed s [] t q root at in
              rotate_fails t.1 t.0 s' (record m { seed = m.seed + length m.config.issuers }) root'
                at' (ground arith)
        ]
