-- ===== src/Certs/Validate/Names.antt =====
-- What `validateState` says of the names of an authority.
use compage_go.Base.{
  ℕ, ◌≡◌, inl, inr, refl, Bool, Option, some, [], ◌∷◌, nat_comparable, list_comparable,
  list_same_iff, Bytes, arith, Option-cases,
}
use compage_go.Go.Map.{Map, lookup}
use compage_go.Certs.Errors.{Result, ok, err, Result-cases}
use compage_go.Certs.Definition.{IssuerDefinition}
use compage_go.Certs.Crypto.{Crypto, parse_cert_der, identity_from_ca_name}
use compage_go.Certs.State.{RootRecord, State}
use compage_go.Certs.Validate.{check_root, check_roots, validate_state}

module _ (x : Crypto) (parse_scheme : Bytes → Option Bytes)
    (definitions_equal : IssuerDefinition → IssuerDefinition → Bool) where
  -- a root that passes has the identity of the authority, without a common name
  check_root-common :
      (s : State) (g : ℕ) (r : RootRecord)
      → check_root x parse_scheme definitions_equal s g r ≡ ok tt
      → s.spec.identity.common_name ≡ []
  unfolding check_root identity_from_ca_name
  check_root-common s g r h = elim (Result-cases (parse_cert_der x r.certificate_der)) [
    | inr (e, q) ↦ absurd (ground arith)
    | inl (c, q) ↦ ground (arith, list_same_iff [] s.spec.identity.common_name)
  ]

  check_roots-common :
      (s : State) (roots : Map ℕ RootRecord) (g : ℕ) (r : RootRecord)
      → check_roots x parse_scheme definitions_equal s roots ≡ ok tt
      → lookup g roots ≡ some r
      → s.spec.identity.common_name ≡ []
  unfolding check_roots lookup
  check_roots-common s [] g r h e = absurd (ground arith)
  check_roots-common s ((k, q) ∷ rest) g r h e =
      check_root-common s k q (passed (check_root x parse_scheme definitions_equal s k q) refl)
    where
      passed :
          (o : Result (Unit {0}))
          → check_root x parse_scheme definitions_equal s k q ≡ o
          → check_root x parse_scheme definitions_equal s k q ≡ ok tt
      passed (ok u) a = a
      passed (err f) a = absurd (ground arith)

  -- A state that validateState accepts is of an authority whose identity has no common name.
  pub validate_state-common :
      (s : State)
      → validate_state x parse_scheme definitions_equal s ≡ ok tt
      → s.spec.identity.common_name ≡ []
  unfolding validate_state
  validate_state-common s h = elim (Option-cases (lookup s.active_root s.roots)) [
    | inl e ↦ absurd (ground arith)
    | inr (r, e) ↦
        check_roots-common s s.roots s.active_root r
          (passed (check_roots x parse_scheme definitions_equal s s.roots) refl) e
  ]
    where
      passed :
          (o : Result (Unit {0}))
          → check_roots x parse_scheme definitions_equal s s.roots ≡ o
          → check_roots x parse_scheme definitions_equal s s.roots ≡ ok tt
      passed (ok u) a = a
      passed (err f) a = absurd (ground arith)
