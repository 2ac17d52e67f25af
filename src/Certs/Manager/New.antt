-- ===== src/Certs/Manager/New.antt =====
-- certs/authority.go: `NewAuthorityManager` behind `parseOptions` and the check of the store's rights.
use compage_go.Base.{
  ℕ, Bool, true, false, not, Option, none, some, List, [], ◌∷◌, ◌==◌, nat_comparable,
  list_comparable, if◌then◌else◌, Bytes, lit,
}
use compage_go.Base.Members.{contains}
use compage_go.Go.Strconv.{ℤ}
use compage_go.Certs.Errors.{
  validation_error, validation_by, conflict_error, is_not_found, Result, ok, err, ◌>>=◌, ◌>>◌,
  refuse,
}
use compage_go.Certs.Names.{Identity, normalize_identity, normalize_display_name}
use compage_go.Certs.Definition.{
  IssuerDefinition, is_positive, valid_key_spec, valid_mode, validate_definition,
}
use compage_go.Certs.Crypto.{Crypto}
use compage_go.Certs.State.{State}
use compage_go.Certs.Store.{Store, load}
use compage_go.Certs.Manager.{Manager}

-- what `parseOptions` gives for the scope of an authority
pub record AuthorityOptions : Type 0 where
  pub authority_name : Option Bytes
  pub identity : Option Identity
  pub owner : Option Bytes
  pub group : Option Bytes
  pub key_spec : Option Bytes
  pub issuance_mode : Option Bytes
  pub root_validity : Option ℤ
  pub issuers : List IssuerDefinition
  pub root_unlock : Bytes

-- an owner or a group: that of the store, which an option must not contradict
unfoldable pub same_principal : Option Bytes → Bytes → Bytes → Result Bytes
same_principal none have message = ok have
same_principal (some want) have message =
    refuse (not (want == have)) (validation_error message) >> ok want

-- an option that is set is to be valid
abbrev pub is_valid {ℓ} : {A : Type ℓ} → (A → Bool) → Option A → Bool
is_valid valid none = true
is_valid valid (some v) = valid v

unfoldable pub normalized {ℓ} : {A : Type ℓ} → (A → Result A) → Option A → Result (Option A)
normalized normalize none = ok none
normalized normalize (some a) = normalize a >>= λ b. ok (some b)

-- Without a name the identity's organization is the name of the authority.
unfoldable pub name_of : Option Bytes → Option Identity → Result (Option Bytes)
name_of (some name) identity = ok (some name)
name_of none none = ok none
name_of none (some v) =
    if v.organization == [] then ok none else named (normalize_display_name v.organization)
  where
    named : Result Bytes → Result (Option Bytes)
    named (ok name) = ok (some name)
    named (err e) =
        err
          (validation_by (lit "identity organization requires an explicit valid authority name") e)

-- a new authority needs a name
unfoldable pub check_new_authority : Option Bytes → Result State → Result (Unit {0})
check_new_authority name (ok s) = ok tt
check_new_authority name (err e) = if is_not_found e then has_name name else err e
  where
    has_name : Option Bytes → Result (Unit {0})
    has_name none =
        err (
          validation_error
            (lit "WithAuthorityName or WithIdentity is required for a new authority"))
    has_name (some n) = ok tt

module _ (parse_scheme : Bytes → Option Bytes) where
  -- the loop over the issuers; `seen` are the slugs of those before
  unfoldable pub fix_issuers : List Bytes → List IssuerDefinition → Result (List IssuerDefinition)
  fix_issuers seen [] = ok []
  fix_issuers seen (d ∷ ds) = do
    name ← normalize_display_name d.name
    fixed ← validate_definition parse_scheme d name
    refuse (contains seen fixed.slug_name)
        (conflict_error (lit "issuer names have the same storage identifier"))
    rest ← fix_issuers (fixed.slug_name ∷ seen) ds
    ok (fixed ∷ rest)

module _ (x : Crypto) (parse_scheme : Bytes → Option Bytes)
    (definitions_equal : IssuerDefinition → IssuerDefinition → Bool) where
  unfoldable pub new_authority_manager : AuthorityOptions → ℕ → Store → Result Manager
  new_authority_manager o seed st = do
    owner ← same_principal o.owner st.owner (lit "manager owner differs from store owner")
    group ← same_principal o.group st.group (lit "manager group differs from store group")
    refuse (not (is_valid valid_key_spec o.key_spec))
        (validation_error (lit "unsupported root key specification"))
    refuse (not (is_valid valid_mode o.issuance_mode))
        (validation_error (lit "unsupported issuance mode"))
    identity ← normalized normalize_identity o.identity
    given ← normalized normalize_display_name o.authority_name
    name ← name_of given identity
    issuers ← fix_issuers parse_scheme [] o.issuers
    refuse (not (is_valid is_positive o.root_validity))
        (validation_error (lit "root validity must be positive"))
    check_new_authority name (load x parse_scheme definitions_equal st)
    ok (record {
      config = record {
        authority_name = name;
        identity = identity;
        owner = owner;
        group = group;
        key_spec = o.key_spec;
        issuance_mode = o.issuance_mode;
        root_validity = o.root_validity;
        issuers = issuers;
        root_unlock = o.root_unlock;
      };
      generated = [];
      closed = false;
      seed = seed;
    })
