-- ===== src/Certs/Authority/First.antt =====
-- The first call of `Ensure`: with an empty store and a manager of valid options.
use compage_go.Base.{
  ℕ, ◌+◌, ◌<◌, ◌≡◌, inl, inr, refl, sym, ap, ◌∙◌, subst, Bool, true, false, Option, none, some, [],
  ◌∷◌, ◌==◌, nat_comparable, list_comparable, Bytes, lit, arith, same_refl, Bool-cases, length,
}
use compage_go.Go.Strconv.{int_comparable}
use compage_go.Go.Map.{lookup, put}
use compage_go.Certs.Errors.{Result, ok, is_not_found}
use compage_go.Certs.Names.{no_identity, normalize_identity, normalize_display_name}
use compage_go.Certs.Definition.{IssuerDefinition, valid_key_spec, valid_mode}
use compage_go.Certs.Crypto.{Crypto}
use compage_go.Certs.State.{State, blank_state}
use compage_go.Certs.Validate.{
  check_spec, check_roots, check_issuers, check_pending, validate_state,
}
use compage_go.Certs.Manager.{Config, Manager, or_default, add_time, default_root_validity}
use compage_go.Certs.Request.{whole_seconds}
use compage_go.Certs.Authority.{provision, new_spec, forward}
use compage_go.Certs.Authority.Created.{
  whole_seconds-bound, IsNew, AllFit, check_root-new, provision_issuers_succeeds,
}
use compage_go.Certs.Store.{
  Store, load, update, decoded, next_refusal, later, base_state, check_ledger, finish_update,
  write_state, next_revision, conclude,
}
use compage_go.Certs.Authority.Due.{EnsureOptions, EnsureResult, no_result, check_options}
use compage_go.Certs.Authority.Ensure.{ensure, ensure_unless, ensured, report, ensure_change}
use compage_go.Certs.Authority.Lawful.{
  too_late, is_ascii, IsAsciiIdentity, IsLawful, make_root_succeeds,
}

-- The options of a new manager are valid, under the defaults that `provision` fills in.
pub record IsUsable (config : Config) (name : Bytes) : Type 0 where
  pub named : config.authority_name ≡ some name
  pub nonempty : (name == []) ≡ false
  pub normal : normalize_display_name name ≡ ok name
  pub identity :
      normalize_identity (or_default config.identity no_identity)
      ≡ ok (or_default config.identity no_identity)
  pub text : IsAsciiIdentity (or_default config.identity no_identity)
  pub ascii : is_ascii name ≡ true
  pub nameless : (or_default config.identity no_identity).common_name ≡ []
  pub key_spec : valid_key_spec (or_default config.key_spec (lit "ecdsa-p256")) ≡ true
  pub mode : valid_mode (or_default config.issuance_mode (lit "none")) ≡ true

-- The end of a root that is made at `now`.
unfoldable pub root_end : Config → ℕ → ℕ
root_end config now =
    whole_seconds (add_time now (or_default config.root_validity default_root_validity))

module _ (x : Crypto) (lawful : IsLawful x) (parse_scheme : Bytes → Option Bytes)
    (definitions_equal : IssuerDefinition → IssuerDefinition → Bool) where
  check_spec-new :
      (config : Config) (name id kind : Bytes)
      → IsUsable config name
      → (id == []) ≡ false
      → check_spec (new_spec x config name id kind) ≡ ok tt
  unfolding check_spec new_spec
  check_spec-new config name id kind u full =
      let v = or_default config.identity no_identity in
      let h = u.identity in
      let n = u.normal in
      ground (
        arith,
        same_refl name,
        same_refl v.organization,
        same_refl v.organizational_unit,
        same_refl v.country,
        same_refl v.province,
        same_refl v.locality,
        same_refl v.common_name,
      )

  -- `provision` on the blank state gives a valid one.
  provision_succeeds :
      (kind : Bytes) (now : ℕ) (s : State) (m : Manager) (name : Bytes)
      → IsUsable m.config name
      → now < too_late
      → add_time now (or_default m.config.root_validity default_root_validity) < too_late
      → AllFit x parse_scheme definitions_equal now (root_end m.config now) m.config.issuers
      → s.pending ≡ none
      → (s' : State) × (m' : Manager) × (provision x kind now s m ≡ (ok s', m'))
        × ((k : ℕ)
            → validate_state x parse_scheme definitions_equal (record s' { revision = k }) ≡ ok tt)
        × (s'.revision ≡ s.revision)
        × ((s'.spec.id == []) ≡ false)
  unfolding provision new_spec root_end validate_state check_roots check_pending lookup or_default
  provision_succeeds kind now s m name u soon early fit idle = known name refl
    where
      known :
          (n : Bytes)
          → name ≡ n
          → (s' : State) × (m' : Manager) × (provision x kind now s m ≡ (ok s', m'))
            × ((k : ℕ)
                → validate_state x parse_scheme definitions_equal (record s' { revision = k })
                  ≡ ok tt)
            × (s'.revision ≡ s.revision)
            × ((s'.spec.id == []) ≡ false)
      known [] e = absurd (ground (arith, u.nonempty))
      known (b ∷ n) e =
          let ascii = subst (λ t. is_ascii t ≡ true) e u.ascii in
          let (id, drawn, full) = lawful.ids m.seed in
          let spec = new_spec x m.config (b ∷ n) id kind in
          let (root, key, secret, c, made, r) =
            make_root_succeeds x lawful spec 1 now m.seed u.key_spec u.text ascii soon early in
          let floored = whole_seconds-bound (add_time now spec.root_validity) in
          let ends = r.not_after in
          let fits =
            subst (λ t. AllFit x parse_scheme definitions_equal now t m.config.issuers)
              (sym r.not_after) fit in
          let (issuers, done, good) =
            provision_issuers_succeeds x lawful parse_scheme definitions_equal spec root key c now
              m.config.issuers (m.seed + 1) [] u.nameless u.key_spec u.text ascii soon
              (ground arith) r fits (λ t new. unfold check_issuers in refl) in
          let s' : State = record s {
            spec = spec;
            active_root = 1;
            roots = (1, root) ∷ [];
            issuers = issuers;
          } in
          let m' = record (forward x m (1 + length m.config.issuers)) {
            generated = put 1 secret m.generated;
          } in
          (
            s',
            m',
            rw (ap (λ t. or_default t []) u.named ∙ e, drawn, made, done) refl,
            λ k.
                let at : State = record s' { revision = k } in
                let new : IsNew at spec root = record {
                  spec_is = refl;
                  roots_are = refl;
                  active = refl;
                  idle = idle;
                } in
                rw
                  (
                    check_spec-new m.config (b ∷ n) id kind (subst (IsUsable m.config) e u) full,
                    check_root-new x lawful parse_scheme definitions_equal at spec root key now c
                        u.nameless new r,
                    good at new,
                    idle,
                  )
                  refl,
            refl,
            full,
          )

  -- An update of an empty store by a system that refuses nothing: what the change makes is kept.
  module _ {C : Type 0} where
    update_first :
        (change : State → C → Result State × C) (c c' : C) (st : Store) (s : State)
        → st.stored ≡ none
        → st.refusals ≡ []
        → change blank_state c ≡ (ok s, c')
        → s.revision ≡ 0
        → (s.spec.id == []) ≡ false
        → validate_state x parse_scheme definitions_equal (record s { revision = 1 }) ≡ ok tt
        → update x parse_scheme definitions_equal change c st
          ≡ (ok tt, (c', record st { stored = some (record s { revision = 1 }); refusals = [] }))
    unfolding update conclude base_state load decoded next_refusal later check_ledger finish_update
        write_state next_revision is_not_found
    update_first change c c' st s empty calm made rev full valid =
        elim (Bool-cases (s.spec.issuance_mode == lit "ledger")) [
          | inl e ↦ simp (calm, empty, made, rev, full, valid, e) refl
          | inr e ↦ simp (calm, empty, made, rev, full, valid, e) refl
        ]

  -- The first call of `Ensure` creates the authority: with an empty store, a system that refuses
  -- nothing, libraries that do what they are called for, an open manager of valid options in ASCII whose
  -- identity has no common name, a root that begins and ends before the year 10000 and valid issuers
  -- with names in ASCII that all end five minutes before it or earlier, it returns a result that says
  -- so, with the first generation and the first revision, and what is then stored is a state that
  -- `validateState` accepts.
  pub ensure-creates :
      (o : EnsureOptions) (now : ℕ) (st : Store) (m : Manager) (name : Bytes)
      → check_options o ≡ ok tt
      → st.stored ≡ none
      → st.refusals ≡ []
      → m.closed ≡ false
      → IsUsable m.config name
      → now < too_late
      → add_time now (or_default m.config.root_validity default_root_validity) < too_late
      → AllFit x parse_scheme definitions_equal now (root_end m.config now) m.config.issuers
      → (r : EnsureResult) × (m' : Manager) × (st' : Store) × (s : State) × (ensure x parse_scheme
            definitions_equal o now st m
          ≡ (ok r, (m', st')))
        × (r.created ≡ true)
        × (r.root_generation ≡ 1)
        × (r.revision ≡ 1)
        × (st'.stored ≡ some s)
        × (validate_state x parse_scheme definitions_equal s ≡ ok tt)
  unfolding ensure ensure_unless ensured report ensure_change load decoded next_refusal
  ensure-creates o now st m name oh empty calm shut u soon early fit =
      let (s, m', made, valid, rev, full) =
        provision_succeeds st.store_kind now blank_state m name u soon early fit refl in
      let s' : State = record s { revision = 1 } in
      let st' : Store = record st { stored = some s'; refusals = [] } in
      let new : EnsureResult = record no_result { created = true; root_generation = 1 } in
      let valid_now = valid 1 in
      let updated =
        update_first (ensure_change x parse_scheme definitions_equal o now st) (m, no_result)
          (m', new) st s empty calm (rw made refl) rev full valid_now in
      (
        record new { revision = 1 },
        m',
        st',
        s',
        simp (oh, shut, updated, valid_now) refl,
        refl,
        refl,
        refl,
        refl,
        valid_now,
      )
