-- ===== src/Certs/Sound/Provision.antt =====
-- `provision`, and the loop of `Ensure` that adds issuers.
use compage_go.Base.{
  ℕ, ◌+◌, ◌≡◌, ◌≢◌, refl, sym, ◌∙◌, Bool, Option, none, some, List, [], ◌∷◌, ◌++◌, nat_comparable,
  nat_beq_iff, list_comparable, Bytes, arith, inl, inr, Option-cases, List-cases, if◌then◌else◌,
  subst,
}
use compage_go.Go.Map.{Map, lookup, put, lookup-put_self, lookup-put_other, key-cases}
use compage_go.Certs.Errors.{ok, Result-cases}
use compage_go.Certs.Definition.{IssuerDefinition}
use compage_go.Certs.Crypto.{Crypto}
use compage_go.Certs.State.{AuthoritySpec, RootRecord, IssuerVersion, IssuerRecord, State}
use compage_go.Certs.Store.{Store}
use compage_go.Certs.Validate.{is_root, pending_generation, root_needs_key}
use compage_go.Certs.Authority.{provision, provision_issuers, new_spec}
use compage_go.Certs.Making.{make_issuer, make_root}
use compage_go.Certs.Manager.{Manager, active_root_signer, or_default}
use compage_go.Certs.Authority.Ensure.{add_issuers}
use compage_go.Certs.Authority.Due.{EnsureOptions}
use compage_go.Certs.Sound.{IsSoundIssuer, IsSound, staged_version}
use compage_go.Certs.Sound.Made.{KeysAreEncoded, make_issuer_lem, make_root_lem}
use compage_go.Certs.Sound.Issuer.{IsSoundIssuer-new}

abbrev pub AllActive : ℕ → Map Bytes IssuerRecord → Type 0
AllActive g issuers =
    (slug : Bytes) (i : IssuerRecord) → lookup slug issuers ≡ some i → IsSoundIssuer g g none i

abbrev first_version : IssuerDefinition → IssuerVersion → IssuerRecord
first_version d v = record { definition = d; active_version = 1; versions = (1, v) ∷ [] }

AllActive-put :
    (g : ℕ) (issuers : Map Bytes IssuerRecord) (k : Bytes) (i : IssuerRecord)
    → AllActive g issuers
    → IsSoundIssuer g g none i
    → AllActive g (put k i issuers)
AllActive-put g issuers k i all new slug j e = elim (key-cases k slug) [
  | inl p ↦
      let self : lookup slug (put k i issuers) ≡ some i =
        subst (λ t. lookup t (put k i issuers) ≡ some i) p (lookup-put_self k i issuers) in
      let same : i ≡ j = ground arith in subst (λ t. IsSoundIssuer g g none t) same new
  | inr p ↦ all slug j (sym (lookup-put_other k slug i issuers p) ∙ e)
]

module _ (x : Crypto) (encoded : KeysAreEncoded x) where
  provision_issuers_lem :
      (spec : AuthoritySpec) (ds : List IssuerDefinition) (root : RootRecord) (key : x.Key)
      (now draw : ℕ) (made issuers : Map Bytes IssuerRecord)
      → provision_issuers x spec ds root key now draw made ≡ ok issuers
      → AllActive 1 made
      → AllActive 1 issuers
  unfolding provision_issuers
  provision_issuers_lem spec [] root key now draw made issuers h all =
      subst (λ t. AllActive 1 t) (ground arith) all
  provision_issuers_lem spec (d ∷ ds) root key now draw made issuers h all =
      elim (Result-cases (make_issuer x spec 1 1 d root key now draw)) [
        | inr (e, q) ↦ absurd (ground arith)
        | inl (v, q) ↦
            let (under, held) = make_issuer_lem x encoded spec 1 1 d root key now draw v q in
            provision_issuers_lem spec ds root key now (draw + 1)
              (put d.slug_name (first_version d v) made) issuers (ground arith)
              (AllActive-put 1 made d.slug_name (first_version d v) all
                (IsSoundIssuer-new d v 1 1 under held))
      ]

  -- A new authority is sound, whatever the state that it starts from, if nothing is pending there.
  pub provision-IsSound :
      (kind : Bytes) (now : ℕ) (s s' : State) (m : Manager)
      → s.pending ≡ none
      → (provision x kind now s m).0 ≡ ok s'
      → IsSound s'
  unfolding provision lookup
  provision-IsSound kind now s s' m none_pending h =
      elim (List-cases (or_default m.config.authority_name [])) [
        | inl e ↦ absurd (ground arith)
        | inr (c, name, e) ↦ elim (Option-cases (x.random_id m.seed)) [
          | inl f ↦ absurd (ground arith)
          | inr (id, f) ↦
              let spec = new_spec x m.config (c ∷ name) id kind in
              elim (Result-cases (make_root x spec 1 now m.seed)) [
                | inr (g, q) ↦ absurd (ground arith)
                | inl (made, q) ↦
                    elim (Result-cases (
                      provision_issuers x spec m.config.issuers made.0 made.1 now (m.seed + 1)
                        [])) [
                          | inr (g, r) ↦ absurd (ground arith)
                          | inl (issuers, r) ↦
                              let done : record s {
                                spec = spec;
                                active_root = 1;
                                roots = (1, made.0) ∷ [];
                                issuers = issuers;
                              }
                                  ≡ s' =
                                ground arith in
                              subst IsSound done (
                                sound spec made.0 issuers
                                  (make_root_lem x encoded spec 1 now m.seed made q).1
                                  (provision_issuers_lem spec m.config.issuers made.0 made.1 now
                                    (m.seed + 1) [] issuers r
                                    (λ slug i none_there. absurd (ground arith))))
                        ]
              ]
        ]
      ]
    where
      sound :
          (spec : AuthoritySpec) (root : RootRecord) (issuers : Map Bytes IssuerRecord)
          → root.encrypted_key_der ≢ []
          → AllActive 1 issuers
          → IsSound
              (record s { spec = spec; active_root = 1; roots = (1, root) ∷ []; issuers = issuers })
      sound spec root issuers key all = rw none_pending (record {
        root_key = (root, refl, key);
        retired_roots = λ g r e free.
            unfold root_needs_key in absurd (ground (arith, nat_beq_iff 1 g, nat_beq_iff g 1));
        issuers = all;
        pending = tt;
      })

-- an issuer added to a state where nothing is pending
IsSound-add :
    (s : State) (d : IssuerDefinition) (v : IssuerVersion)
    → s.pending ≡ none
    → IsSound s
    → v.root_generation ≡ s.active_root
    → v.key_der ≢ []
    → IsSound (record s { issuers = put d.slug_name (first_version d v) s.issuers })
unfolding root_needs_key
IsSound-add s d v none_pending sound under held = record {
  root_key = sound.root_key;
  retired_roots = sound.retired_roots;
  issuers = λ slug i e. rw none_pending (
      AllActive-put s.active_root s.issuers d.slug_name (first_version d v) active
        (IsSoundIssuer-new d v s.active_root s.active_root under held) slug i e);
  pending = rw none_pending tt;
}
  where
    active : AllActive s.active_root s.issuers
    active slug i e =
        subst
          (λ o.
            IsSoundIssuer s.active_root (if is_root o then pending_generation o else s.active_root)
              (staged_version o slug) i)
          none_pending (sound.issuers slug i e)

module _ (x : Crypto) (encoded : KeysAreEncoded x) (parse_scheme : Bytes → Option Bytes)
    (definitions_equal : IssuerDefinition → IssuerDefinition → Bool) (o : EnsureOptions) (now : ℕ)
    (st : Store) where
  -- The loop that adds issuers leaves a sound state with nothing pending, if it starts from one.
  pub add_issuers-IsSound :
      (m : Manager) (ds : List IssuerDefinition) (draw : ℕ) (s : State) (names : List Bytes)
      (r : State × List Bytes)
      → add_issuers x parse_scheme definitions_equal o now st m ds draw s names ≡ ok r
      → s.pending ≡ none
      → IsSound s
      → IsSound r.0 × (r.0.pending ≡ none)
  unfolding add_issuers
  add_issuers-IsSound m [] draw s names r h p sound =
      let same : s ≡ r.0 = ground arith in
      (subst IsSound same sound, subst (λ t. State.pending t ≡ none) same p)
  add_issuers-IsSound m (d ∷ ds) draw s names r h p sound =
      elim (Option-cases (lookup d.slug_name s.issuers)) [
        | inr (i, e) ↦ add_issuers-IsSound m ds (draw + 1) s names r (ground arith) p sound
        | inl e ↦ elim (Result-cases (active_root_signer x m.config m.generated st s)) [
          | inr (f, q) ↦ absurd (ground arith)
          | inl (key, q) ↦ elim (Option-cases (lookup s.active_root s.roots)) [
            | inl f ↦ absurd (ground arith)
            | inr (root, f) ↦
                elim (Result-cases (make_issuer x s.spec s.active_root 1 d root key now draw)) [
                  | inr (g, t) ↦ absurd (ground arith)
                  | inl (v, t) ↦
                      let (under, held) =
                        make_issuer_lem x encoded s.spec s.active_root 1 d root key now draw v t in
                      add_issuers-IsSound m ds (draw + 1)
                        (record s { issuers = put d.slug_name (first_version d v) s.issuers })
                        (names ++ d.name ∷ []) r (ground arith) p
                        (IsSound-add s d v p sound under held)
                ]
          ]
        ]
      ]
