-- ===== src/Certs/Authority/Created.antt =====
-- What `provision` makes against the checks of `validateState`.
use compage_go.Base.{
  ℕ, ◌+◌, ◌≤◌, ◌<◌, ◌≡◌, inl, inr, refl, sym, ap, subst, Bool, true, Option, none, List, [], ◌∷◌,
  nat_comparable, list_comparable, Bytes, arith, same_refl,
}
use compage_go.Go.Strconv.{int_comparable}
use compage_go.Go.Map.{Map, lookup, put}
use compage_go.Certs.Errors.{ok, Result-cases}
use compage_go.Certs.Names.{Identity, identity_same}
use compage_go.Certs.Definition.{IssuerDefinition, valid_key_spec}
use compage_go.Certs.Crypto.{
  Name, Cert, Crypto, nonempty, first, ca_name, identity_from_ca_name, root_common_name,
  issuer_common_name, parse_cert_der, parse_key_der, public_keys_equal,
}
use compage_go.Certs.State.{
  AuthoritySpec, RootRecord, IssuerVersion, IssuerRecord, State, clock_skew,
}
use compage_go.Certs.Validate.{
  root_needs_key, version_needs_key, has_spec, check_root, check_version, check_versions,
  check_active, check_definition, check_issuer, check_issuers,
}
use compage_go.Certs.Manager.{add_time}
use compage_go.Certs.Request.{whole_seconds}
use compage_go.Certs.Authority.{provision_issuers}
use compage_go.Certs.Authority.Lawful.{
  too_late, is_ascii, IsAsciiIdentity, IsLawful, IsRootOf, IsVersionOf, make_issuer_succeeds,
}

pub first-nonempty : (b : Bytes) → first (nonempty b) ≡ b
unfolding first nonempty
first-nonempty [] = refl
first-nonempty (c ∷ b) = refl

-- The identity that a CA's name is made of is read back, if it has no common name.
identity-ca_name :
    (v : Identity) (cn : Bytes)
    → v.common_name ≡ []
    → identity_same (identity_from_ca_name (ca_name v cn)) v ≡ true
unfolding identity_from_ca_name ca_name
identity-ca_name v cn h =
    rw
      (
        first-nonempty v.organization,
        first-nonempty v.organizational_unit,
        first-nonempty v.country,
        first-nonempty v.province,
        first-nonempty v.locality,
        h,
      )
      (ground (
        arith,
        same_refl v.organization,
        same_refl v.organizational_unit,
        same_refl v.country,
        same_refl v.province,
        same_refl v.locality,
      ))

pub whole_seconds-bound : (t : ℕ) → whole_seconds t ≤ t
unfolding whole_seconds
whole_seconds-bound t = omega arith

-- a new authority: its root, and nothing pending
pub record IsNew (s : State) (spec : AuthoritySpec) (root : RootRecord) : Type 0 where
  pub spec_is : s.spec ≡ spec
  pub roots_are : s.roots ≡ (1, root) ∷ []
  pub active : s.active_root ≡ 1
  pub idle : s.pending ≡ none

module _ (x : Crypto) (parse_scheme : Bytes → Option Bytes)
    (definitions_equal : IssuerDefinition → IssuerDefinition → Bool) where
  -- The definitions of the issuers are valid, and each ends early enough before `root_end`.
  abbrev pub AllFit : ℕ → ℕ → List IssuerDefinition → Type 0
  AllFit now root_end [] = Unit
  AllFit now root_end (d ∷ ds) =
      (check_definition x parse_scheme definitions_equal d ≡ ok tt)
      × (is_ascii d.name ≡ true)
      × (add_time now d.validity + clock_skew ≤ root_end)
      × AllFit now root_end ds

module _ (x : Crypto) (lawful : IsLawful x) (parse_scheme : Bytes → Option Bytes)
    (definitions_equal : IssuerDefinition → IssuerDefinition → Bool) where
  -- what the checks of a subject read
  subject_read :
      (spec spec' : AuthoritySpec) (n : Name) (cn : Bytes)
      → spec.identity.common_name ≡ []
      → spec' ≡ spec
      → n ≡ ca_name spec.identity cn
      → (n.common_name ≡ cn) × (identity_same (identity_from_ca_name n) spec'.identity ≡ true)
  unfolding ca_name
  subject_read spec spec' n cn nameless same h = (
    ap (λ (m : Name). m.common_name) h,
    subst (λ m. identity_same (identity_from_ca_name m) spec'.identity ≡ true) (sym h)
        (subst
          (λ (t : AuthoritySpec).
            identity_same (identity_from_ca_name (ca_name spec.identity cn)) t.identity ≡ true)
          (sym same) (identity-ca_name spec.identity cn nameless)),
  )

  pub check_root-new :
      (s : State) (spec : AuthoritySpec) (root : RootRecord) (key : x.Key) (now : ℕ) (c : Cert)
      → spec.identity.common_name ≡ []
      → IsNew s spec root
      → IsRootOf x lawful spec 1 now root key c
      → check_root x parse_scheme definitions_equal s 1 root ≡ ok tt
  unfolding check_root parse_cert_der has_spec root_needs_key
  check_root-new s spec root key now c nameless new r =
      let (cn, id) =
        subject_read spec s.spec c.subject (root_common_name spec.name 1) nameless new.spec_is
          r.subject in
      ground (
        arith,
        same_refl (x.fingerprint c),
        same_refl (root_common_name spec.name 1),
        same_refl spec.key_spec,
      )

  -- the record that a new issuer has
  abbrev new_issuer : IssuerDefinition → IssuerVersion → IssuerRecord
  new_issuer d v = record { definition = d; active_version = 1; versions = (1, v) ∷ [] }

  check_version-new :
      (s : State) (spec : AuthoritySpec) (root : RootRecord) (root_key : x.Key) (made now : ℕ)
      (rc : Cert) (d : IssuerDefinition) (v : IssuerVersion) (key : x.Key) (c : Cert)
      → spec.identity.common_name ≡ []
      → IsNew s spec root
      → IsRootOf x lawful spec 1 made root root_key rc
      → IsVersionOf x lawful spec 1 1 d now rc v key c
      → add_time now d.validity + clock_skew ≤ rc.not_after
      → check_version x parse_scheme definitions_equal s d.slug_name (new_issuer d v) 1 v ≡ ok tt
  unfolding check_version parse_cert_der has_spec version_needs_key lookup
  check_version-new s spec root root_key made now rc d v key c nameless new r of fits =
      let (cn, id) =
        subject_read spec s.spec c.subject (issuer_common_name spec.name 1 d.name 1) nameless
          new.spec_is of.subject in
      let short = whole_seconds-bound (add_time now d.validity) in
      ground (
        arith,
        same_refl (x.fingerprint c),
        same_refl (issuer_common_name spec.name 1 d.name 1),
        same_refl spec.key_spec,
      )

  check_active-new :
      (s : State) (spec : AuthoritySpec) (root : RootRecord) (now : ℕ) (rc : Cert)
      (d : IssuerDefinition) (v : IssuerVersion) (key : x.Key) (c : Cert)
      → IsNew s spec root
      → IsVersionOf x lawful spec 1 1 d now rc v key c
      → check_active x parse_scheme definitions_equal s v ≡ ok tt
  unfolding check_active parse_key_der public_keys_equal
  check_active-new s spec root now rc d v key c new of =
      let (der, marshaled) = lawful.marshals key of.supported in ground (arith, same_refl der)

  check_issuer-new :
      (s : State) (spec : AuthoritySpec) (root : RootRecord) (root_key : x.Key) (made now : ℕ)
      (rc : Cert) (d : IssuerDefinition) (v : IssuerVersion) (key : x.Key) (c : Cert)
      → spec.identity.common_name ≡ []
      → IsNew s spec root
      → IsRootOf x lawful spec 1 made root root_key rc
      → IsVersionOf x lawful spec 1 1 d now rc v key c
      → check_definition x parse_scheme definitions_equal d ≡ ok tt
      → add_time now d.validity + clock_skew ≤ rc.not_after
      → check_issuer x parse_scheme definitions_equal s d.slug_name (new_issuer d v) ≡ ok tt
  unfolding check_issuer check_versions lookup
  check_issuer-new s spec root root_key made now rc d v key c nameless new r of valid fits =
      ground (
        arith,
        same_refl d.slug_name,
        check_version-new s spec root root_key made now rc d v key c nameless new r of fits,
        check_active-new s spec root now rc d v key c new of,
      )

  check_issuers-put :
      (s : State) (slug : Bytes) (issuer : IssuerRecord) (m : Map Bytes IssuerRecord)
      → check_issuer x parse_scheme definitions_equal s slug issuer ≡ ok tt
      → check_issuers x parse_scheme definitions_equal s m ≡ ok tt
      → check_issuers x parse_scheme definitions_equal s (put slug issuer m) ≡ ok tt
  unfolding check_issuers put
  check_issuers-put s slug issuer [] h hm = rw h refl
  check_issuers-put s slug issuer ((j, w) ∷ m) h hm =
      elim (Result-cases (check_issuer x parse_scheme definitions_equal s j w)) [
        | inl (tt, e) ↦ let rest = check_issuers-put s slug issuer m h in ground (arith, rest)
        | inr (f, e) ↦ absurd (ground arith)
      ]

  -- Every issuer of a new authority is made, and what is made passes the checks of every state that
  -- has this root.
  pub provision_issuers_succeeds :
      (spec : AuthoritySpec) (root : RootRecord) (root_key : x.Key) (rc : Cert) (now : ℕ)
      (ds : List IssuerDefinition) (draw : ℕ) (m : Map Bytes IssuerRecord)
      → spec.identity.common_name ≡ []
      → valid_key_spec spec.key_spec ≡ true
      → IsAsciiIdentity spec.identity
      → is_ascii spec.name ≡ true
      → now < too_late
      → rc.not_after < too_late
      → IsRootOf x lawful spec 1 now root root_key rc
      → AllFit x parse_scheme definitions_equal now rc.not_after ds
      → ((s : State)
          → IsNew s spec root
          → check_issuers x parse_scheme definitions_equal s m ≡ ok tt)
      → (m' : Map Bytes IssuerRecord) × (provision_issuers x spec ds root root_key now draw m
          ≡ ok m')
        × ((s : State)
            → IsNew s spec root
            → check_issuers x parse_scheme definitions_equal s m' ≡ ok tt)
  unfolding provision_issuers
  provision_issuers_succeeds spec root root_key rc now [] draw m nameless valid text ascii soon
        early r fit hm =
      (m, refl, hm)
  provision_issuers_succeeds spec root root_key rc now (d ∷ ds) draw m nameless valid text ascii
        soon early r (defined, ascii', fits, rest) hm =
      let (v, key, c, made, of) =
        make_issuer_succeeds x lawful spec 1 1 d root root_key rc now now draw valid text ascii
          ascii' soon early r fits in
      let (m', done, good) =
        provision_issuers_succeeds spec root root_key rc now ds (draw + 1)
          (put d.slug_name (new_issuer d v) m) nameless valid text ascii soon early r rest
          (λ s new.
            check_issuers-put s d.slug_name (new_issuer d v) m
              (check_issuer-new s spec root root_key now now rc d v key c nameless new r of defined
                fits)
              (hm s new)) in
      (m', rw made done, good)
