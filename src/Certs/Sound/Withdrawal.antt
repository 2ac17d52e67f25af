-- ===== src/Certs/Sound/Withdrawal.antt =====
-- The changes of `DiscardPending` and `PruneRoot`.
use compage_go.Base.{
  ℕ, ◌≤◌, ◌<◌, ◌≡◌, ◌≢◌, ◌⊎◌, refl, sym, ap, ◌∙◌, false, ◌||◌, ◌&&◌, Option, none, some, [], ◌==◌,
  nat_comparable, nat_beq_iff, list_comparable, list_same_iff, Bytes, lit, arith, inl, inr,
  Option-cases, Bool-cases, if◌then◌else◌, subst,
}
use compage_go.Go.Map.{
  Map, lookup, put, delete, lookup-put_self, lookup-put_other, lookup-delete_self,
  lookup-delete_other, key-cases,
}
use compage_go.Certs.Errors.{ok, Result-cases}
use compage_go.Certs.State.{RootRecord, PendingManifest, State, blank_state}
use compage_go.Certs.Validate.{is_pending, pending_generation, root_needs_key}
use compage_go.Certs.Authority.Promote.{discard_version, for_pending, discard, prune_change}
use compage_go.Certs.Sound.{HasRootKey, IsSoundPending, IsSound}
use compage_go.Certs.Sound.Promoted.{here, generation, issuer_of, retired_of, issuers_discarded}

abbrev without : ℕ → Map ℕ RootRecord → Map ℕ RootRecord
without g roots = if g == 0 then roots else delete g roots

without_other :
    (g h : ℕ) (roots : Map ℕ RootRecord) → g ≢ h → lookup h (without g roots) ≡ lookup h roots
without_other g h roots ne = elim (Bool-cases (g == 0)) [
  | inl e ↦ rw e refl
  | inr e ↦ rw e (lookup-delete_other g h roots ne)
]

without_self : (g : ℕ) (roots : Map ℕ RootRecord) → 0 < g → lookup g (without g roots) ≡ none
without_self g roots h =
    let e : (g == 0) ≡ false = ground (arith, nat_beq_iff g 0) in rw e (lookup-delete_self g roots)

module _ (s : State) (p : PendingManifest) (sound : IsSound s) (is : s.pending ≡ some p) where
  -- a pending root is not the active one, and an operation on issuers has no root
  not_active : (p.root_generation ≢ s.active_root) ⊎ (p.root_generation ≡ 0)
  not_active = elim (Bool-cases (p.kind == lit "root")) [
    | inl r ↦ let later = ((here s p sound is).1 r).1 in inl (ground arith)
    | inr r ↦ inr ((here s p sound is).2 r)
  ]

  active_stays :
      lookup s.active_root (without p.root_generation s.roots) ≡ lookup s.active_root s.roots
  active_stays = go not_active
    where
      go :
          (p.root_generation ≢ s.active_root) ⊎ (p.root_generation ≡ 0)
          → lookup s.active_root (without p.root_generation s.roots) ≡ lookup s.active_root s.roots
      go (inl ne) = without_other p.root_generation s.active_root s.roots ne
      go (inr z) = rw z refl

  retired :
      (h : ℕ) (q : RootRecord)
      → lookup h (without p.root_generation s.roots) ≡ some q
      → (h == s.active_root || false) ≡ false
      → q.encrypted_key_der ≡ []
  retired h q e free = elim (Bool-cases (p.kind == lit "root")) [
    | inl r ↦ elim (key-cases p.root_generation h) [
      | inl same ↦
          let later = ((here s p sound is).1 r).1 in
          let gone = without_self p.root_generation s.roots (omega arith) in
          let e' : lookup p.root_generation (without p.root_generation s.roots) ≡ some q =
            subst (λ t. lookup t (without p.root_generation s.roots) ≡ some q) (sym same) e in
          absurd (ground arith)
      | inr ne ↦
          retired_of s p sound is h q (sym (without_other p.root_generation h s.roots ne) ∙ e)
            (ground (arith, nat_beq_iff h p.root_generation))
    ]
    | inr r ↦
        let z = (here s p sound is).2 r in
        retired_of s p sound is h q (sym (ap (λ g. lookup h (without g s.roots)) z) ∙ e)
          (ground arith)
  ]

-- DiscardPending leaves a sound state, if it starts from one: what was staged is gone, and the active
-- root and the active versions keep their keys.
pub discard-IsSound :
    (p : PendingManifest) (s s' : State)
    → s.pending ≡ some p
    → IsSound s
    → discard p s ≡ ok s'
    → IsSound s'
unfolding discard root_needs_key
discard-IsSound p s s' is sound h =
    elim (Result-cases (for_pending discard_version p.issuers s.issuers)) [
      | inr (e, q) ↦ absurd (ground arith)
      | inl (issuers, q) ↦
          let done : record s {
            roots = without p.root_generation s.roots;
            issuers = issuers;
            pending = none;
          }
              ≡ s' =
            ground arith in
          let (r, at, key) = sound.root_key in
          subst IsSound done (record {
            root_key = (r, active_stays s p sound is ∙ at, key);
            retired_roots = retired s p sound is;
            issuers =
                issuers_discarded s.active_root (generation s p sound is) s.issuers issuers
                  p.issuers (here s p sound is).0 q (issuer_of s p sound is);
            pending = tt;
          })
    ]

pruned_state : State → ℕ → RootRecord → State
pruned_state s g r = record s { roots = put g (record r { retired_trust_until = 0 }) s.roots }

prune_change_parts :
    (g : ℕ) (expected : Bytes) (now : ℕ) (s s' : State)
    → prune_change g expected now s ≡ ok s'
    → (r : RootRecord) × ((g == s.active_root) ≡ false)
      × ((is_pending s.pending && g == pending_generation s.pending) ≡ false)
      × (lookup g s.roots ≡ some r)
      × (r.fingerprint ≡ expected)
      × (r.retired_trust_until ≤ now)
      × (pruned_state s g r ≡ s')
unfolding prune_change pruned_state
prune_change_parts g expected now s s' h = elim (Option-cases (lookup g s.roots)) [
  | inl e ↦ absurd (ground arith)
  | inr (r, e) ↦ (
    r,
    ground arith,
    ground arith,
    e,
    ground (arith, list_same_iff r.fingerprint expected),
    ground arith,
    ground arith,
  )
]

same_key :
    (roots : Map ℕ RootRecord) (g : ℕ) (r : RootRecord)
    → lookup g roots ≡ some r
    → (h : ℕ) → HasRootKey roots h
    → HasRootKey (put g (record r { retired_trust_until = 0 }) roots) h
same_key roots g r at h (q, there, key) = elim (key-cases g h) [
  | inl same ↦ (
    record r { retired_trust_until = 0 },
    subst
        (λ t.
          lookup t (put g (record r { retired_trust_until = 0 }) roots)
          ≡ some (record r { retired_trust_until = 0 }))
        same (lookup-put_self g _ roots),
    let there' : lookup g roots ≡ some q = subst (λ t. lookup t roots ≡ some q) (sym same) there in
        ground arith,
  )
  | inr ne ↦ (q, lookup-put_other g h _ roots ne ∙ there, key)
]

-- PruneRoot leaves a sound state, if it starts from one.
pub prune_change-IsSound :
    (g : ℕ) (expected : Bytes) (now : ℕ) (s s' : State)
    → IsSound s
    → prune_change g expected now s ≡ ok s'
    → IsSound s'
unfolding pruned_state root_needs_key
prune_change-IsSound g expected now s s' sound h =
    let (r, not_active, not_pending, at, same, over, done) =
      prune_change_parts g expected now s s' h in
    subst IsSound done (record {
      root_key = same_key s.roots g r at s.active_root sound.root_key;
      retired_roots = λ k q e free. retired_root r at k q e free (key-cases g k);
      issuers = sound.issuers;
      pending = pending_stays r at s.pending sound.pending;
    })
  where
    retired_root :
        (r : RootRecord)
        → lookup g s.roots ≡ some r
        → (k : ℕ) (q : RootRecord)
        → lookup k (put g (record r { retired_trust_until = 0 }) s.roots) ≡ some q
        → root_needs_key s k ≡ false
        → (g ≡ k) ⊎ (g ≢ k)
        → q.encrypted_key_der ≡ []
    retired_root r at k q e free (inl p) =
        let free' : root_needs_key s g ≡ false =
          subst (λ t. root_needs_key s t ≡ false) (sym p) free in
        let empty = sound.retired_roots g r at free' in
        let e' : lookup g (put g (record r { retired_trust_until = 0 }) s.roots) ≡ some q =
          subst (λ t. lookup t (put g (record r { retired_trust_until = 0 }) s.roots) ≡ some q)
            (sym p) e in
        let self = lookup-put_self g (record r { retired_trust_until = 0 }) s.roots in ground arith
    retired_root r at k q e free (inr ne) =
        sound.retired_roots k q (sym (lookup-put_other g k _ s.roots ne) ∙ e) free

    pending_stays :
        (r : RootRecord)
        → lookup g s.roots ≡ some r
        → (o : Option PendingManifest) → IsSoundPending s o
        → IsSoundPending (pruned_state s g r) o
    pending_stays r at none t = tt
    pending_stays r at (some p) (unique, root, none_else) = (
      unique,
      λ is.
          let (held, later, all) = root is in
          (same_key s.roots g r at p.root_generation held, later, all),
      none_else,
    )

-- There is no root to prune in a state that is not provisioned.
pub prune_change-blank :
    (g : ℕ) (expected : Bytes) (now : ℕ) (s' : State)
    → prune_change g expected now blank_state ≡ ok s'
    → ⊥
prune_change-blank g expected now s' h =
    let (r, _, _, at, _, _, _) = prune_change_parts g expected now blank_state s' h in
    none_there r at
  where
    none_there : (r : RootRecord) → lookup g [] ≡ some r → ⊥
    none_there r at = unfold lookup in ground arith
