-- ===== src/Certs/Sound/Issuer.antt =====
-- One issuer: a version is staged, becomes active, or is discarded.
use compage_go.Base.{
  ℕ, ◌+◌, ◌≡◌, ◌≢◌, refl, sym, ◌∙◌, Option, none, some, [], ◌∷◌, nat_comparable, nat_beq_iff, arith,
  inl, inr, ap,
}
use compage_go.Go.Map.{
  lookup, put, delete, lookup-put_self, lookup-put_other, lookup-delete_self, lookup-delete_other,
  key-cases,
}
use compage_go.Certs.Definition.{IssuerDefinition}
use compage_go.Certs.State.{IssuerVersion, IssuerRecord}
use compage_go.Certs.Authority.Promote.{drop_key, promote_issuer, discard_version}
use compage_go.Certs.Sound.{HasVersionKey, IsSoundIssuer}

-- another map of the same entries has the same version with its key
keeps_key :
    (i j : IssuerRecord) (n g : ℕ)
    → lookup n j.versions ≡ lookup n i.versions
    → HasVersionKey i n g
    → HasVersionKey j n g
keeps_key i j n g same (v, at, under, held) = (v, same ∙ at, under, held)

module _ (active staged : ℕ) (i : IssuerRecord) where
  pub IsSoundIssuer-stage :
      (g : ℕ) (pending : Option ℕ) (v : IssuerVersion)
      → IsSoundIssuer active staged pending i
      → ((n : ℕ) → pending ≡ some n → n ≡ i.active_version + 1)
      → v.root_generation ≡ g
      → v.key_der ≢ []
      → IsSoundIssuer active g
          (some (i.active_version + 1))
          (record i { versions = put (i.active_version + 1) v i.versions })
  IsSoundIssuer-stage g pending v s next root key =
      let n = i.active_version + 1 in
      let ne : n ≢ i.active_version = ground arith in
      record {
        active_key =
            keeps_key i (record i { versions = put n v i.versions }) i.active_version active
              (lookup-put_other n i.active_version v i.versions ne) s.active_key;
        staged_key = ((v, lookup-put_self n v i.versions, root, key), refl);
        retired = λ m u e other not_staged.
            let apart : n ≢ m = λ p. not_staged (ap some p) in
            s.retired m u (sym (lookup-put_other n m v i.versions apart) ∙ e) other
              (λ q. apart (sym (next m q)));
      }

  pub IsSoundIssuer-promote :
      (n g : ℕ)
      → IsSoundIssuer active staged (some n) i
      → IsSoundIssuer staged g none (promote_issuer n i)
  unfolding promote_issuer
  IsSoundIssuer-promote n g s =
      let (w, at, under, held) = s.active_key in
      let m = put i.active_version (drop_key w) i.versions in
      let ne : i.active_version ≢ n = λ p. ground (arith, s.staged_key.1) in
      rw at (record {
        active_key =
            keeps_key i (record i { active_version = n; versions = m }) n staged
              (lookup-put_other i.active_version n (drop_key w) i.versions ne) s.staged_key.0;
        staged_key = tt;
        retired = λ k u e other _. elim (key-cases i.active_version k) [
          | inl p ↦ dropped w k u p e
          | inr p ↦
              s.retired k u
                (sym (lookup-put_other i.active_version k (drop_key w) i.versions p) ∙ e)
                (λ q. p (sym q)) (λ q. other (ground arith))
        ];
      })
    where
      dropped :
          (w : IssuerVersion) (k : ℕ) (u : IssuerVersion)
          → i.active_version ≡ k
          → lookup k (put i.active_version (drop_key w) i.versions) ≡ some u
          → u.key_der ≡ []
      dropped w k u p e =
          let self = lookup-put_self i.active_version (drop_key w) i.versions in ground arith

  pub IsSoundIssuer-discard :
      (n g : ℕ)
      → IsSoundIssuer active staged (some n) i
      → IsSoundIssuer active g none (discard_version n i)
  unfolding discard_version
  IsSoundIssuer-discard n g s =
      let ne : n ≢ i.active_version = λ p. ground (arith, s.staged_key.1) in
      record {
        active_key =
            keeps_key i (record i { versions = delete n i.versions }) i.active_version active
              (lookup-delete_other n i.active_version i.versions ne) s.active_key;
        staged_key = tt;
        retired = λ k u e other _. elim (key-cases n k) [
          | inl p ↦ gone k u p e
          | inr p ↦
              s.retired k u (sym (lookup-delete_other n k i.versions p) ∙ e) other
                (λ q. p (ground arith))
        ];
      }
    where
      gone :
          (k : ℕ) (u : IssuerVersion)
          → n ≡ k
          → lookup k (delete n i.versions) ≡ some u
          → u.key_der ≡ []
      gone k u p e = let self = lookup-delete_self n i.versions in ground arith

  -- an issuer without a staged version
  pub IsSoundIssuer-keep :
      (g : ℕ) → IsSoundIssuer active staged none i → IsSoundIssuer active g none i
  IsSoundIssuer-keep g s = record {
    active_key = s.active_key;
    staged_key = tt;
    retired = s.retired;
  }

-- an issuer that is new
pub IsSoundIssuer-new :
    (d : IssuerDefinition) (v : IssuerVersion) (g t : ℕ)
    → v.root_generation ≡ g
    → v.key_der ≢ []
    → IsSoundIssuer g t none (record { definition = d; active_version = 1; versions = (1, v) ∷ [] })
unfolding lookup
IsSoundIssuer-new d v g t root key = record {
  active_key = (v, refl, root, key);
  staged_key = tt;
  retired = λ n u e other _. absurd (ground (arith, nat_beq_iff 1 n));
}
