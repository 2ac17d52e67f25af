-- ===== src/Certs/Sound/Promotion.antt =====
-- The changes of `PromotePending`, `DiscardPending` and `PruneRoot`.
use compage_go.Base.{
  ℕ, ◌≡◌, ◌≢◌, ◌⊎◌, refl, sym, ◌∙◌, true, false, ◌||◌, none, some, List, [], ◌==◌, nat_comparable,
  nat_beq_iff, list_comparable, Bytes, lit, arith, inl, inr, Option-cases, Bool-cases,
  if◌then◌else◌, subst,
}
use compage_go.Go.Map.{Map, lookup, put, lookup-put_self, lookup-put_other, key-cases}
use compage_go.Certs.Errors.{Result, ok, Result-cases}
use compage_go.Certs.Crypto.{Crypto}
use compage_go.Certs.State.{RootRecord, IssuerRecord, PendingManifest, State}
use compage_go.Certs.Store.{Store, LedgerRecord, read_ledger}
use compage_go.Certs.Validate.{root_needs_key}
use compage_go.Certs.Authority.Promote.{
  retire_root, retire_deadline, promote_root, promote_issuer, for_pending, promote,
}
use compage_go.Certs.Sound.{IsSoundIssuer, IsSound}
use compage_go.Certs.Sound.Promoted.{here, issuer_of, retired_of, issuers_promoted}

-- What `promote` returns: the root that is promoted, if there is one, and the issuers.
abbrev pub Rooted : ℕ → Result (List LedgerRecord) → PendingManifest → State → State → Type 0
Rooted now ledger p s rooted =
    ((p.kind == lit "root") ≡ true × (promote_root now ledger p s ≡ ok rooted))
    ⊎ ((p.kind == lit "root") ≡ false × (rooted ≡ s))

abbrev pub promoted_state : State → Map Bytes IssuerRecord → State
promoted_state rooted issuers = record rooted { issuers = issuers; pending = none }

module _ (x : Crypto) (unlock : Bytes) (generated : Map ℕ Bytes) (st : Store) (now : ℕ) where
  pub promote_parts :
      (p : PendingManifest) (s s' : State)
      → promote x unlock generated st now p s ≡ ok s'
      → (rooted : State) × (issuers : Map Bytes IssuerRecord) × Rooted now
          (read_ledger st)
          p
          s
          rooted
        × (for_pending promote_issuer p.issuers rooted.issuers ≡ ok issuers)
        × (promoted_state rooted issuers ≡ s')
  unfolding promote
  promote_parts p s s' h = elim (Bool-cases (p.kind == lit "root")) [
    | inl is ↦ elim (Result-cases (promote_root now (read_ledger st) p s)) [
      | inl (rooted, q) ↦
          elim (Result-cases (for_pending promote_issuer p.issuers rooted.issuers)) [
            | inl (issuers, r) ↦ (rooted, issuers, inl (is, q), r, ground arith)
            | inr (e, r) ↦ absurd (ground arith)
          ]
      | inr (e, q) ↦ absurd (ground arith)
    ]
    | inr is ↦ elim (Result-cases (for_pending promote_issuer p.issuers s.issuers)) [
      | inl (issuers, r) ↦ (s, issuers, inr (is, refl), r, ground arith)
      | inr (e, r) ↦ absurd (ground arith)
    ]
  ]

-- What `promoteRoot` makes of the state.
pub promote_root_parts :
    (now : ℕ) (ledger : Result (List LedgerRecord)) (p : PendingManifest) (s rooted : State)
    → promote_root now ledger p s ≡ ok rooted
    → (old : RootRecord) × (deadline : ℕ) × (lookup s.active_root s.roots ≡ some old)
      × (retire_deadline (record s { active_root = p.root_generation }) s.active_root ledger now
          ≡ ok deadline)
      × (record s {
        active_root = p.root_generation;
        roots = put s.active_root (retire_root deadline old) s.roots;
      }
          ≡ rooted)
unfolding promote_root
promote_root_parts now ledger p s rooted h = elim (Option-cases (lookup s.active_root s.roots)) [
  | inl e ↦ absurd (ground arith)
  | inr (old, e) ↦
      elim (Result-cases
        (retire_deadline (record s { active_root = p.root_generation }) s.active_root ledger now)) [
          | inl (deadline, q) ↦ (old, deadline, e, q, ground arith)
          | inr (f, q) ↦ absurd (ground arith)
        ]
]

module _ (s : State) (p : PendingManifest) (sound : IsSound s) (is : s.pending ≡ some p) where
  root_promoted :
      (old : RootRecord) (deadline : ℕ) (issuers : Map Bytes IssuerRecord)
      → (p.kind == lit "root") ≡ true
      → for_pending promote_issuer p.issuers s.issuers ≡ ok issuers
      → IsSound (record s {
        active_root = p.root_generation;
        roots = put s.active_root (retire_root deadline old) s.roots;
        issuers = issuers;
        pending = none;
      })
  unfolding root_needs_key retire_root
  root_promoted old deadline issuers root ran =
      let (held, later, all) = (here s p sound is).1 root in
      let ne : s.active_root ≢ p.root_generation = ground arith in
      let (r, at, key) = held in
      record {
        root_key = (r, lookup-put_other s.active_root p.root_generation _ s.roots ne ∙ at, key);
        retired_roots = λ h q e free. retired h q e free (key-cases s.active_root h);
        issuers =
            issuers_promoted s.active_root p.root_generation s.issuers issuers p.issuers
              (here s p sound is).0 ran
              (λ slug i e.
                subst
                  (λ b.
                    IsSoundIssuer s.active_root (if b then p.root_generation else s.active_root)
                      (lookup slug p.issuers) i)
                  root (issuer_of s p sound is slug i e))
              (λ slug i e no. let (n, there) = all slug i e in absurd (ground arith));
        pending = tt;
      }
    where
      retired :
          (h : ℕ) (q : RootRecord)
          → lookup h (put s.active_root (retire_root deadline old) s.roots) ≡ some q
          → (h == p.root_generation || false) ≡ false
          → (s.active_root ≡ h) ⊎ (s.active_root ≢ h)
          → q.encrypted_key_der ≡ []
      retired h q e free (inl same) =
          let self = lookup-put_self s.active_root (retire_root deadline old) s.roots in
          let e' : lookup s.active_root (put s.active_root (retire_root deadline old) s.roots)
              ≡ some q =
            subst (λ t. lookup t (put s.active_root (retire_root deadline old) s.roots) ≡ some q)
              (sym same) e in
          ground arith
      retired h q e free (inr other) =
          retired_of s p sound is h q (sym (lookup-put_other s.active_root h _ s.roots other) ∙ e)
            (ground (arith, nat_beq_iff h s.active_root))

  issuer_promoted :
      (issuers : Map Bytes IssuerRecord)
      → (p.kind == lit "root") ≡ false
      → for_pending promote_issuer p.issuers s.issuers ≡ ok issuers
      → IsSound (record s { issuers = issuers; pending = none })
  unfolding root_needs_key
  issuer_promoted issuers no_root ran = record {
    root_key = sound.root_key;
    retired_roots = λ h q e free. retired_of s p sound is h q e (rw no_root free);
    issuers =
        issuers_promoted s.active_root s.active_root s.issuers issuers p.issuers
          (here s p sound is).0 ran
          (λ slug i e.
            subst
              (λ b.
                IsSoundIssuer s.active_root (if b then p.root_generation else s.active_root)
                  (lookup slug p.issuers) i)
              no_root (issuer_of s p sound is slug i e))
          (λ _ _ _ _. refl);
    pending = tt;
  }

-- PromotePending leaves a sound state, if it starts from one: exactly the active root and the active
-- versions of issuers, all of them under it, have their private keys.
pub promote-IsSound :
    (x : Crypto) (unlock : Bytes) (generated : Map ℕ Bytes) (st : Store) (now : ℕ)
    (p : PendingManifest) (s s' : State)
    → s.pending ≡ some p
    → IsSound s
    → promote x unlock generated st now p s ≡ ok s'
    → IsSound s'
promote-IsSound x unlock generated st now p s s' is sound h =
    let (rooted, issuers, how, ran, done) = promote_parts x unlock generated st now p s s' h in
    subst IsSound done (go rooted issuers how ran)
  where
    go :
        (rooted : State) (issuers : Map Bytes IssuerRecord)
        → Rooted now (read_ledger st) p s rooted
        → for_pending promote_issuer p.issuers rooted.issuers ≡ ok issuers
        → IsSound (promoted_state rooted issuers)
    go rooted issuers (inl (root, q)) ran =
        let (old, deadline, _, _, same) = promote_root_parts now (read_ledger st) p s rooted q in
        subst (λ t. IsSound (promoted_state t issuers)) same
          (root_promoted s p sound is old deadline issuers root (
            subst (λ t. for_pending promote_issuer p.issuers (State.issuers t) ≡ ok issuers)
              (sym same) ran))
    go rooted issuers (inr (no_root, q)) ran =
        subst (λ t. IsSound (promoted_state t issuers)) (sym q)
          (issuer_promoted s p sound is issuers no_root (
            subst (λ t. for_pending promote_issuer p.issuers (State.issuers t) ≡ ok issuers) q ran))
