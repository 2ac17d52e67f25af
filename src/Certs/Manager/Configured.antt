-- ===== src/Certs/Manager/Configured.antt =====
-- The configuration of a manager that `NewAuthorityManager` returns.
use compage_go.Base.{
  ℕ, ◌≡◌, refl, sym, ap, ◌∙◌, subst, Bool, true, false, not, Option, none, some, List, [], ◌∷◌,
  ◌==◌, nat_comparable, list_comparable, list_same_iff, Bytes, lit, arith, All, map, inl, inr,
  Bool-cases,
}
use compage_go.Base.Members.{contains, IsUnique}
use compage_go.Text.Slug.{slugify, lower_case}
use compage_go.Certs.Errors.{ok, >>=-eq-ok, >>-eq-ok, refuse-eq-ok, Result-cases}
use compage_go.Certs.Names.{Identity, normalize_identity, normalize_display_name, slug}
use compage_go.Certs.Names.Stable.{slug-slugify, normalize_display_name_twice}
use compage_go.Certs.Definition.{
  IssuerDefinition, valid_key_spec, valid_mode, is_positive, choose_validity,
  finish_issuer_definition, validate_definition,
}
use compage_go.Certs.Crypto.{Crypto}
use compage_go.Certs.Store.{Store, load}
use compage_go.Certs.Manager.{Config, Manager}
use compage_go.Certs.Manager.New.{
  AuthorityOptions, same_principal, is_valid, normalized, name_of, fix_issuers, check_new_authority,
  new_authority_manager,
}

-- An issuer is declared under a normal name and the slug of it, for a positive time.
pub record IsDeclared (d : IssuerDefinition) : Type 0 where
  pub normal : normalize_display_name d.name ≡ ok d.name
  pub slug_is : d.slug_name ≡ slug d.name
  pub positive : is_positive d.validity ≡ true

module _ (parse_scheme : Bytes → Option Bytes) where
  validate_definition-IsDeclared :
      (d fixed : IssuerDefinition) (given name : Bytes)
      → normalize_display_name given ≡ ok name
      → validate_definition parse_scheme d name ≡ ok fixed
      → IsDeclared fixed
  unfolding validate_definition finish_issuer_definition choose_validity
  validate_definition-IsDeclared d fixed given name normal h =
      let shape : (fixed.name ≡ name)
          × (fixed.slug_name ≡ slugify name (lit "-") (lower_case ∷ [])) =
        ground arith in
      record {
        normal =
            subst (λ n. normalize_display_name n ≡ ok n) (sym shape.0)
              (normalize_display_name_twice given name normal);
        slug_is = shape.1 ∙ (sym (slug-slugify given name normal) ∙ ap slug (sym shape.0));
        positive = ground arith;
      }

  -- the slugs of a list, none of which is among `seen` or occurs twice
  abbrev AreNew : List Bytes → List IssuerDefinition → Type 0
  AreNew seen ds = All (λ (d : IssuerDefinition). contains seen d.slug_name ≡ false) ds

  later_AreNew :
      (s : Bytes) (seen : List Bytes) (ds : List IssuerDefinition)
      → AreNew (s ∷ seen) ds
      → AreNew seen ds × (contains (map (λ (d : IssuerDefinition). d.slug_name) ds) s ≡ false)
  later_AreNew s seen [] h = (tt, refl)
  later_AreNew s seen (d ∷ ds) (h, hs) =
      let (new, apart) = later_AreNew s seen ds hs in
      (
        (ground arith, new),
        ground (arith, list_same_iff d.slug_name s, list_same_iff s d.slug_name),
      )

  -- what the loop over the issuers leaves
  abbrev AreDeclared : List Bytes → List IssuerDefinition → Type 0
  AreDeclared seen fixed =
      All IsDeclared fixed
      × AreNew seen fixed
      × IsUnique (map (λ (d : IssuerDefinition). d.slug_name) fixed)

  fix_issuers-IsDeclared :
      (seen : List Bytes) (ds fixed : List IssuerDefinition)
      → fix_issuers parse_scheme seen ds ≡ ok fixed
      → AreDeclared seen fixed
  unfolding fix_issuers
  fix_issuers-IsDeclared seen [] fixed h =
      let e : [] ≡ fixed = ground arith in subst (AreDeclared seen) e (tt, tt, tt)
  fix_issuers-IsDeclared seen (d ∷ ds) fixed h =
      let (name, normal, h1) = >>=-eq-ok (normalize_display_name d.name) _ h in
      let (first, valid, h2) = >>=-eq-ok (validate_definition parse_scheme d name) _ h1 in
      let (new, h3) = refuse-eq-ok _ _ _ h2 in
      let (rest, done, h4) =
        >>=-eq-ok (fix_issuers parse_scheme (first.slug_name ∷ seen) ds) _ h3 in
      let (all, new_rest, once) = fix_issuers-IsDeclared (first.slug_name ∷ seen) ds rest done in
      let (later, apart) = later_AreNew first.slug_name seen rest new_rest in
      let e : first ∷ rest ≡ fixed = ground arith in
      subst (AreDeclared seen) e (
        (validate_definition-IsDeclared d first d.name name normal valid, all),
        (new, later),
        (apart, once),
      )

-- an option that is not set, or has the property
abbrev pub IfSet {ℓ κ} : {A : Type ℓ} → (A → Type κ) → Option A → Type κ
IfSet P none = Unit
IfSet P (some a) = P a

pub record IsConfigured (config : Config) (st : Store) : Type 0 where
  pub owner : config.owner ≡ st.owner
  pub group : config.group ≡ st.group
  pub name : IfSet (λ n. normalize_display_name n ≡ ok n) config.authority_name
  pub key_spec : IfSet (λ k. valid_key_spec k ≡ true) config.key_spec
  pub mode : IfSet (λ k. valid_mode k ≡ true) config.issuance_mode
  pub validity : IfSet (λ v. is_positive v ≡ true) config.root_validity
  pub issuers : All IsDeclared config.issuers
  pub slugs : IsUnique (map (λ (d : IssuerDefinition). d.slug_name) config.issuers)

same_principal-eq :
    (o : Option Bytes) (have message r : Bytes) → same_principal o have message ≡ ok r → r ≡ have
unfolding same_principal
same_principal-eq none have message r h = ground arith
same_principal-eq (some want) have message r h = ground (arith, list_same_iff want have)

is_valid-IfSet {ℓ} :
    {A : Type ℓ}
    → (valid : A → Bool) (o : Option A) → not (is_valid valid o) ≡ false
    → IfSet (λ a. valid a ≡ true) o
is_valid-IfSet valid none h = tt
is_valid-IfSet valid (some v) h = ground arith

abbrev IsNormalName : Option Bytes → Type 0
IsNormalName o = IfSet (λ n. normalize_display_name n ≡ ok n) o

normalized-IsNormalName :
    (o r : Option Bytes) → normalized normalize_display_name o ≡ ok r → IsNormalName r
unfolding normalized
normalized-IsNormalName none r h = let e : none ≡ r = ground arith in subst IsNormalName e tt
normalized-IsNormalName (some given) r h =
    let (n, normal, h1) = >>=-eq-ok (normalize_display_name given) _ h in
    let e : some n ≡ r = ground arith in
    subst IsNormalName e (normalize_display_name_twice given n normal)

name_of-IsNormalName :
    (given : Option Bytes) (identity : Option Identity) (r : Option Bytes)
    → IsNormalName given
    → name_of given identity ≡ ok r
    → IsNormalName r
unfolding name_of
name_of-IsNormalName (some name) identity r normal h =
    let e : some name ≡ r = ground arith in subst IsNormalName e normal
name_of-IsNormalName none none r normal h =
    let e : none ≡ r = ground arith in subst IsNormalName e tt
name_of-IsNormalName none (some v) r normal h = elim (Bool-cases (v.organization == [])) [
  | inl q ↦ let e : none ≡ r = ground arith in subst IsNormalName e tt
  | inr q ↦ elim (Result-cases (normalize_display_name v.organization)) [
    | inl (n, p) ↦
        let e : some n ≡ r = ground arith in
        subst IsNormalName e (normalize_display_name_twice v.organization n p)
    | inr (f, p) ↦ absurd (ground arith)
  ]
]

config-ok : (a b : Manager) → ok a ≡ ok b → a.config ≡ b.config
config-ok a b h = ground arith

module _ (x : Crypto) (parse_scheme : Bytes → Option Bytes)
    (definitions_equal : IssuerDefinition → IssuerDefinition → Bool) where
  -- A manager that `NewAuthorityManager` returns has its store's owner and group; its authority's name
  -- is normal, its key specification and issuance mode are known ones and its root's validity is
  -- positive, each as far as it is set; and each issuer is declared under a normal name, the name's
  -- slug, which no other issuer has, and for a positive time.
  pub new_authority_manager-IsConfigured :
      (o : AuthorityOptions) (seed : ℕ) (st : Store) (m : Manager)
      → new_authority_manager x parse_scheme definitions_equal o seed st ≡ ok m
      → IsConfigured m.config st
  unfolding new_authority_manager
  new_authority_manager-IsConfigured o seed st m h =
      let (owner, h1, r1) = >>=-eq-ok (same_principal o.owner st.owner _) _ h in
      let (group, h2, r2) = >>=-eq-ok (same_principal o.group st.group _) _ r1 in
      let (h3, r3) = refuse-eq-ok (not (is_valid valid_key_spec o.key_spec)) _ _ r2 in
      let (h4, r4) = refuse-eq-ok (not (is_valid valid_mode o.issuance_mode)) _ _ r3 in
      let (identity, h5, r5) = >>=-eq-ok (normalized normalize_identity o.identity) _ r4 in
      let (given, h6, r6) = >>=-eq-ok (normalized normalize_display_name o.authority_name) _ r5 in
      let (name, h7, r7) = >>=-eq-ok (name_of given identity) _ r6 in
      let (issuers, h8, r8) = >>=-eq-ok (fix_issuers parse_scheme [] o.issuers) _ r7 in
      let (h9, r9) = refuse-eq-ok (not (is_valid is_positive o.root_validity)) _ _ r8 in
      let (h10, r10) =
        >>-eq-ok (check_new_authority name (load x parse_scheme definitions_equal st)) _ r9 in
      let (declared, new, once) = fix_issuers-IsDeclared parse_scheme [] o.issuers issuers h8 in
      let e = config-ok _ m r10 in
      subst (λ c. IsConfigured c st) e
        (record {
          owner = same_principal-eq o.owner st.owner _ owner h1;
          group = same_principal-eq o.group st.group _ group h2;
          name =
              name_of-IsNormalName given identity name
                (normalized-IsNormalName o.authority_name given h6) h7;
          key_spec = is_valid-IfSet valid_key_spec o.key_spec h3;
          mode = is_valid-IfSet valid_mode o.issuance_mode h4;
          validity = is_valid-IfSet is_positive o.root_validity h9;
          issuers = declared;
          slugs = once;
        })
