-- ===== src/Certs/Sound/Kept.antt =====
-- What is stored stays sound under each operation of a manager.
use compage_go.Base.{
  ℕ, ◌≡◌, ◌⊎◌, refl, sym, Bool, true, false, Option, none, some, [], ◌==◌, ◌||◌, nat_comparable,
  list_comparable, Bytes, arith, inl, inr, Option-cases, Bool-cases, subst,
}
use compage_go.Go.Map.{Map}
use compage_go.Certs.Errors.{Result, ok, err, Result-cases}
use compage_go.Certs.Definition.{IssuerDefinition}
use compage_go.Certs.Crypto.{Crypto}
use compage_go.Certs.State.{State, blank_state}
use compage_go.Certs.Store.{
  Store, LedgerRecord, step, later, next_refusal, load, load_unlocks, store_unlocks, update,
}
use compage_go.Certs.Store
use compage_go.Certs.Manager.{Config, Manager}
use compage_go.Certs.Authority.Ensure.{ensure_change, ensured, ensure_unless, ensure}
use compage_go.Certs.Authority.Due.{EnsureOptions, EnsureResult, no_result, check_options}
use compage_go.Certs.Authority.Promote.{promote_change, discard_change, prune_change}
use compage_go.Certs.Authority.Operations.{
  promote_pending, discard_pending, prune_root, purge, update_unless, after_promotion, plain,
  promotion_updated, promotion_loaded, promotion_cleaned, discard_updated,
}
use compage_go.Certs.Authority.Unlocks.{store_local_unlock}
use compage_go.Certs.Sound.{IsSound}
use compage_go.Certs.Sound.Made.{KeysAreEncoded}
use compage_go.Certs.Sound.Ensured.{ensure_change-IsSound}
use compage_go.Certs.Sound.Promotion.{promote-IsSound}
use compage_go.Certs.Sound.Withdrawal.{discard-IsSound, prune_change-IsSound, prune_change-blank}
use compage_go.Certs.Sound.Reach.{Holds, update-Holds}

-- the changes, on the state that an update starts from
abbrev Starts : State → Type 0
Starts s = (s ≡ blank_state) ⊎ (IsSound s × ((s.spec.id == []) ≡ false))

promote_change-IsSound :
    (x : Crypto) (unlock : Bytes) (generated : Map ℕ Bytes) (config : Config) (st : Store) (now : ℕ)
    (s s' : State)
    → Starts s
    → promote_change x unlock generated config st now s ≡ ok s'
    → IsSound s'
unfolding promote_change
promote_change-IsSound x unlock generated config st now s s' (inl blank) h =
    let nothing : s.pending ≡ none = rw blank refl in absurd (ground arith)
promote_change-IsSound x unlock generated config st now s s' (inr (sound, _)) h =
    elim (Option-cases s.pending) [
      | inl e ↦ absurd (ground arith)
      | inr (p, e) ↦ promote-IsSound x unlock generated st now p s s' e sound (ground arith)
    ]

discard_change-IsSound :
    (config : Config) (st : Store) (s s' : State)
    → Starts s
    → discard_change config st s ≡ ok s'
    → IsSound s'
unfolding discard_change
discard_change-IsSound config st s s' (inl blank) h =
    let nothing : s.pending ≡ none = rw blank refl in absurd (ground arith)
discard_change-IsSound config st s s' (inr (sound, _)) h = elim (Option-cases s.pending) [
  | inl e ↦ absurd (ground arith)
  | inr (p, e) ↦ discard-IsSound p s s' e sound (ground arith)
]

pruned_from :
    (g : ℕ) (expected : Bytes) (now : ℕ) (s s' : State)
    → Starts s
    → prune_change g expected now s ≡ ok s'
    → IsSound s'
pruned_from g expected now s s' (inl blank) h = absurd (none_there s blank h)
  where
    none_there : (s : State) → s ≡ blank_state → prune_change g expected now s ≡ ok s' → ⊥
    none_there s blank h =
        let e : prune_change g expected now blank_state ≡ ok s' =
          subst (λ t. prune_change g expected now t ≡ ok s') blank h in
        prune_change-blank g expected now s' e
pruned_from g expected now s s' (inr (sound, _)) h =
    prune_change-IsSound g expected now s s' sound h

module _ (x : Crypto) (encoded : KeysAreEncoded x) (parse_scheme : Bytes → Option Bytes)
    (definitions_equal : IssuerDefinition → IssuerDefinition → Bool) where
  store_unlocks-stored :
      (v : Map ℕ Bytes) (replace : Bool) (st : Store)
      → (store_unlocks v replace st).1.stored ≡ st.stored
  unfolding store_unlocks
  store_unlocks-stored v replace st = ground arith

  ensured-stored :
      (o : EnsureOptions) (now : ℕ) (st : Store)
      (r : Result (Unit {0}) × ((Manager × EnsureResult) × Store))
      → (ensured x parse_scheme definitions_equal o now st r).1.1.stored ≡ r.1.1.stored
  unfolding ensured
  ensured-stored o now st (ok u, ((m, e), s)) = refl
  ensured-stored o now st (err f, ((m, e), s)) = refl

  ensure_unless-Holds :
      (o : EnsureOptions) (now : ℕ) (st : Store) (closed : Bool) (m : Manager)
      → Holds st.stored
      → Holds (ensure_unless x parse_scheme definitions_equal o now st closed m).1.1.stored
  unfolding ensure_unless
  ensure_unless-Holds o now st true m old = old
  ensure_unless-Holds o now st false m old =
      let change = ensure_change x parse_scheme definitions_equal o now st in
      subst Holds
        (sym (
          ensured-stored o now st
            (update x parse_scheme definitions_equal change (m, no_result) st)))
        (update-Holds x parse_scheme definitions_equal change (m, no_result) st
          (λ s s' start ran.
            ensure_change-IsSound x encoded parse_scheme definitions_equal o now st s s'
              (m, no_result) start ran)
          old)

  pub ensure-Holds :
      (o : EnsureOptions) (now : ℕ) (st : Store) (m : Manager)
      → Holds st.stored
      → Holds (ensure x parse_scheme definitions_equal o now st m).1.1.stored
  unfolding ensure
  ensure-Holds o now st m old = elim (Result-cases (check_options o)) [
    | inr (f, e) ↦ rw e old
    | inl (u, e) ↦ rw e (ensure_unless-Holds o now st m.closed m old)
  ]

  update_unless-Holds :
      (closed : Bool) (change : State → Result State) (st : Store)
      → ((s s' : State) → Starts s → change s ≡ ok s' → IsSound s')
      → Holds st.stored
      → Holds (update_unless x parse_scheme definitions_equal closed change st).1.stored
  unfolding update_unless plain
  update_unless-Holds true change st keeps old = old
  update_unless-Holds false change st keeps old =
      update-Holds x parse_scheme definitions_equal (plain x parse_scheme definitions_equal change)
        tt st keeps old

  after_promotion-stored :
      (generated : Map ℕ Bytes) (promoted : Bytes) (s : State) (st : Store)
      → (after_promotion x parse_scheme definitions_equal generated promoted s st).1.stored
        ≡ st.stored
  unfolding after_promotion store_unlocks
  after_promotion-stored generated promoted s st = ground arith

  promotion_updated-stored :
      (m : Manager) (promoted : Bytes) (r : Result (Unit {0}) × Store)
      → (promotion_updated x parse_scheme definitions_equal m promoted r).1.1.stored ≡ r.1.stored
  unfolding promotion_updated promotion_loaded promotion_cleaned
  promotion_updated-stored m promoted (err e, st) = refl
  promotion_updated-stored m promoted (ok u, st) =
      elim (Result-cases (load x parse_scheme definitions_equal st)) [
        | inr (f, e) ↦ rw e refl
        | inl (s, e) ↦
            let done = after_promotion x parse_scheme definitions_equal m.generated promoted s st in
            elim (Result-cases done.0) [
              | inr (f, q) ↦ rw (e, q) (after_promotion-stored m.generated promoted s st)
              | inl (v, q) ↦ rw (e, q) (after_promotion-stored m.generated promoted s st)
            ]
      ]

  discard_updated-stored :
      (m : Manager) (g : ℕ) (r : Result (Unit {0}) × Store)
      → (discard_updated x parse_scheme definitions_equal m g r).1.1.stored ≡ r.1.stored
  unfolding discard_updated store_unlocks
  discard_updated-stored m g (err e, st) = refl
  discard_updated-stored m g (ok u, st) = ground arith

  pub promote_pending-Holds :
      (unlock : Bytes) (now : ℕ) (m : Manager) (st : Store)
      → Holds st.stored
      → Holds (promote_pending x parse_scheme definitions_equal unlock now m st).1.1.stored
  unfolding promote_pending
  promote_pending-Holds unlock now m st old = subst Holds (sym (promotion_updated-stored m _ _)) (
      update_unless-Holds m.closed (promote_change x unlock m.generated m.config st now) st
        (λ s s' start ran.
          promote_change-IsSound x unlock m.generated m.config st now s s' start ran)
        old)

  pub discard_pending-Holds :
      (m : Manager) (st : Store)
      → Holds st.stored
      → Holds (discard_pending x parse_scheme definitions_equal m st).1.1.stored
  unfolding discard_pending
  discard_pending-Holds m st old = subst Holds (sym (discard_updated-stored m _ _)) (
      update_unless-Holds m.closed (discard_change m.config st) st
        (λ s s' start ran. discard_change-IsSound m.config st s s' start ran) old)

  pub prune_root-Holds :
      (g : ℕ) (expected : Bytes) (now : ℕ) (st : Store)
      → Holds st.stored
      → Holds (prune_root x parse_scheme definitions_equal g expected now st).1.stored
  unfolding prune_root
  prune_root-Holds g expected now st old = elim (Bool-cases (g == 0 || expected == [])) [
    | inl e ↦ rw e old
    | inr e ↦ rw e (
        update_unless-Holds false (prune_change g expected now) st
          (λ s s' start ran. pruned_from g expected now s s' start ran) old)
  ]

  pub store_local_unlock-stored :
      (replace : Bool) (m : Manager) (st : Store)
      → (store_local_unlock x parse_scheme definitions_equal replace m st).1.stored ≡ st.stored
  unfolding store_local_unlock store_unlocks
  store_local_unlock-stored replace m st = ground arith

  -- `purge` removes what is stored, or leaves it
  purge-stored : (st : Store) (s : State) → (Store.purge st).1.stored ≡ some s → st.stored ≡ some s
  unfolding Store.purge
  purge-stored st s h = ground arith

  store_purge-Holds : (st : Store) → Holds st.stored → Holds (Store.purge st).1.stored
  store_purge-Holds st old = go (Store.purge st).1.stored (purge-stored st)
    where
      go : (o : Option State) → ((s : State) → o ≡ some s → st.stored ≡ some s) → Holds o
      go none same = tt
      go (some s) same = subst Holds (same s refl) old

  pub purge-Holds :
      (id fingerprint : Bytes) (m : Manager) (st : Store)
      → Holds st.stored
      → Holds (purge x parse_scheme definitions_equal id fingerprint m st).1.1.stored
  unfolding purge
  purge-Holds id fingerprint m st old =
      go (purge x parse_scheme definitions_equal id fingerprint m st).1.1.stored same
    where
      same :
          (s : State)
          → (purge x parse_scheme definitions_equal id fingerprint m st).1.1.stored ≡ some s
          → st.stored ≡ some s
      same s h = ground (arith, purge-stored st s)

      go : (o : Option State) → ((s : State) → o ≡ some s → st.stored ≡ some s) → Holds o
      go none keep = tt
      go (some s) keep = subst Holds (keep s refl) old
