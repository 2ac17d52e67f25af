-- ===== src/Certs/Sound/Ensured.antt =====
-- The change that `Ensure` passes to the store.
use compage_go.Base.{
  ℕ, ◌+◌, ◌≡◌, ◌⊎◌, refl, Bool, true, false, Option, none, List, [], ◌∷◌, ◌==◌, nat_comparable,
  list_comparable, Bytes, arith, inl, inr, Option-cases, Bool-cases, subst, length,
}
use compage_go.Certs.Errors.{Result, ok, err, Result-cases}
use compage_go.Certs.Definition.{IssuerDefinition}
use compage_go.Certs.Crypto.{Crypto}
use compage_go.Certs.State.{State, blank_state}
use compage_go.Certs.Store.{Store}
use compage_go.Certs.Authority.{provision, prepare_root}
use compage_go.Certs.Manager.{Manager}
use compage_go.Certs.Authority.Ensure.{
  add_issuers, rotate, rotate_root, rotate_issuers, reconcile, ensure_change,
}
use compage_go.Certs.Authority.Due.{
  EnsureOptions, EnsureResult, active_root_certificate, due_issuers, is_due,
}
use compage_go.Certs.Sound.{IsSound}
use compage_go.Certs.Sound.Made.{KeysAreEncoded}
use compage_go.Certs.Sound.Changes.{prepare_root-IsSound, prepare_issuers-IsSound}
use compage_go.Certs.Sound.Provision.{provision-IsSound, add_issuers-IsSound}

module _ (x : Crypto) (encoded : KeysAreEncoded x) (parse_scheme : Bytes → Option Bytes)
    (definitions_equal : IssuerDefinition → IssuerDefinition → Bool) (o : EnsureOptions) (now : ℕ)
    (st : Store) where
  rotate_root-IsSound :
      (names : List Bytes) (s s' : State) (m : Manager)
      → s.pending ≡ none
      → IsSound s
      → (rotate_root x parse_scheme definitions_equal o now st names s m).0 ≡ ok s'
      → IsSound s'
  unfolding rotate_root
  rotate_root-IsSound names s s' m p sound h =
      prepare_root-IsSound x encoded now s s' m p sound (same (prepare_root x now s m).0 refl)
    where
      same :
          (r : Result State) → (prepare_root x now s m).0 ≡ r → (prepare_root x now s m).0 ≡ ok s'
      same (ok t) q = ground arith
      same (err e) q = absurd (ground arith)

  rotate_issuers-IsSound :
      (names due : List Bytes) (s s' : State) (m : Manager)
      → s.pending ≡ none
      → IsSound s
      → (rotate_issuers x parse_scheme definitions_equal o now st names due s m).0 ≡ ok s'
      → IsSound s'
  unfolding rotate_issuers
  rotate_issuers-IsSound names [] s s' m p sound h = elim (Bool-cases (names == [])) [
    | inl e ↦ absurd (ground arith)
    | inr e ↦ subst IsSound (ground arith) sound
  ]
  rotate_issuers-IsSound names (slug ∷ due) s s' m p sound h =
      prepare_issuers-IsSound x encoded st (slug ∷ due) now s s' m p sound h

  rotate-IsSound :
      (names : List Bytes) (s s' : State) (m : Manager)
      → s.pending ≡ none
      → IsSound s
      → (rotate x parse_scheme definitions_equal o now st names s m).0 ≡ ok s'
      → IsSound s'
  unfolding rotate
  rotate-IsSound names s s' m p sound h = elim (Result-cases (active_root_certificate x s)) [
    | inr (e, q) ↦ absurd (ground arith)
    | inl (root, q) ↦ elim (Bool-cases (is_due now o.root_rotate_before root.not_after)) [
      | inl d ↦ rotate_root-IsSound names s s' m p sound (ground arith)
      | inr d ↦ elim (Result-cases (due_issuers x now o.issuer_rotate_before s.issuers)) [
        | inr (e, r) ↦ absurd (ground arith)
        | inl (due, r) ↦ rotate_issuers-IsSound names due s s' m p sound (ground arith)
      ]
    ]
  ]

  reconcile-IsSound :
      (s s' : State) (m : Manager)
      → IsSound s
      → (reconcile x parse_scheme definitions_equal o now st s m).0 ≡ ok s'
      → IsSound s'
  unfolding reconcile
  reconcile-IsSound s s' m sound h = elim (Option-cases s.pending) [
    | inr (p, e) ↦ absurd (ground arith)
    | inl e ↦
        elim (Result-cases
          (add_issuers x parse_scheme definitions_equal o now st m m.config.issuers m.seed s [])) [
            | inr (f, q) ↦ absurd (ground arith)
            | inl (r, q) ↦
                let (added, nothing) =
                  add_issuers-IsSound x encoded parse_scheme definitions_equal o now st m
                    m.config.issuers m.seed s [] r q e sound in
                rotate-IsSound r.1 r.0 s' (record m { seed = m.seed + length m.config.issuers })
                  nothing added (ground arith)
          ]
  ]

  -- Ensure makes a sound state of a sound one that has an identifier, and of none.
  pub ensure_change-IsSound :
      (s s' : State) (c : Manager × EnsureResult)
      → (s ≡ blank_state) ⊎ (IsSound s × ((s.spec.id == []) ≡ false))
      → (ensure_change x parse_scheme definitions_equal o now st s c).0 ≡ ok s'
      → IsSound s'
  unfolding ensure_change
  ensure_change-IsSound s s' (m, r) (inr (sound, named)) h =
      reconcile-IsSound s s' m sound (ground arith)
  ensure_change-IsSound s s' (m, r) (inl blank) h =
      let e : (s.spec.id == []) ≡ true = rw blank refl in
      elim (Result-cases (provision x st.store_kind now s m).0) [
        | inr (f, q) ↦ absurd (ground arith)
        | inl (t, q) ↦
            provision-IsSound x encoded st.store_kind now s s' m (rw blank refl) (ground arith)
      ]
