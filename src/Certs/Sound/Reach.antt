-- ===== src/Certs/Sound/Reach.antt =====
-- The operations of a manager on a store, in any order.
use compage_go.Base.{
  ℕ, ◌≡◌, ◌⊎◌, ap, Bool, false, ◌&&◌, not, Option, none, some, [], ◌==◌, nat_comparable,
  list_comparable, Bytes, lit, arith, inl, inr, Bool-cases, subst, leb,
}
use compage_go.Certs.Errors.{is_not_found, Result, ok, Result-cases, refuse-eq-ok, >>-eq-ok}
use compage_go.Certs.Definition.{IssuerDefinition}
use compage_go.Certs.Crypto.{Crypto}
use compage_go.Certs.State.{PendingManifest, State, blank_state}
use compage_go.Certs.Validate.{validate_state, check_spec, root_needs_key}
use compage_go.Certs.Store.{
  Store, step, next_refusal, decoded, load, next_revision, base_state, check_ledger, write_state,
  finish_update, conclude, update,
}
use compage_go.Certs.Sound.{IsSound, IsSoundPending}

-- what is stored is sound
abbrev pub Holds : Option State → Type 0
Holds none = Unit
Holds (some s) = IsSound s

module _ (x : Crypto) (parse_scheme : Bytes → Option Bytes)
    (definitions_equal : IssuerDefinition → IssuerDefinition → Bool) where
  IsSound-revision : (s : State) (n : ℕ) → IsSound s → IsSound (record s { revision = n })
  unfolding root_needs_key
  IsSound-revision s n sound = record {
    root_key = sound.root_key;
    retired_roots = sound.retired_roots;
    issuers = sound.issuers;
    pending = same s.pending sound.pending;
  }
    where
      same :
          (o : Option PendingManifest)
          → IsSoundPending s o
          → IsSoundPending (record s { revision = n }) o
      same none t = tt
      same (some p) t = t

  IsSound-next_revision :
      (before : ℕ) (s : State)
      → IsSound s
      → IsSound (next_revision x parse_scheme definitions_equal before s)
  unfolding next_revision
  IsSound-next_revision before s sound = elim (Bool-cases (leb s.revision before)) [
    | inl e ↦ rw e (IsSound-revision s _ sound)
    | inr e ↦ rw e sound
  ]

  write_state-Holds :
      (s : State) (st : Store)
      → IsSound s
      → Holds st.stored
      → Holds (write_state x parse_scheme definitions_equal s st).1.stored
  unfolding write_state
  write_state-Holds s st sound old = elim (Result-cases (next_refusal st.refusals)) [
    | inl (u, e) ↦ rw e sound
    | inr (f, e) ↦ rw e old
  ]

  finish_update-Holds :
      (existing : Bool) (before : ℕ) (s : State) (st : Store)
      → IsSound s
      → Holds st.stored
      → Holds (finish_update x parse_scheme definitions_equal existing before s st).1.stored
  unfolding finish_update
  finish_update-Holds existing before s st sound old =
      let t = next_revision x parse_scheme definitions_equal before s in
      elim (Bool-cases (s.spec.id == [])) [
        | inl e ↦ rw e old
        | inr e ↦ elim (Result-cases (validate_state x parse_scheme definitions_equal t)) [
          | inr (f, q) ↦ rw (e, q) old
          | inl (u, q) ↦
              let next = IsSound-next_revision before s sound in
              elim (Bool-cases (t.spec.issuance_mode == lit "ledger" && not existing)) [
                | inr l ↦ rw (e, q, l) (write_state-Holds t st next old)
                | inl l ↦ elim (Result-cases (next_refusal st.refusals)) [
                  | inr (f, n) ↦ rw (e, q, l, n) old
                  | inl (v, n) ↦ rw (e, q, l, n) (write_state-Holds t (step st) next old)
                ]
              ]
        ]
      ]

  -- A state that loads has an identifier.
  decoded_named :
      (o : Option State) (s : State)
      → decoded x parse_scheme definitions_equal o ≡ ok s
      → (o ≡ some s) × ((s.spec.id == []) ≡ false)
  unfolding decoded validate_state check_spec
  decoded_named none s h = absurd (ground arith)
  decoded_named (some t) s h =
      let valid = >>-eq-ok (validate_state x parse_scheme definitions_equal t) (ok t) h in
      let same : t ≡ s = ground arith in
      let spec = >>-eq-ok (check_spec t.spec) _ valid.0 in
      (
        ap some same,
        subst (λ u. ((State.spec u).id == []) ≡ false) same (refuse-eq-ok _ _ _ spec.0).0,
      )

  -- what the change starts from
  abbrev pub Start : Option State → State → Type 0
  Start o s = (s ≡ blank_state) ⊎ ((o ≡ some s) × ((s.spec.id == []) ≡ false))

  base_state_lem :
      (st : Store) (existing : Bool) (s : State)
      → base_state x parse_scheme definitions_equal (load x parse_scheme definitions_equal st)
        ≡ ok (existing, s)
      → Start st.stored s
  unfolding base_state load
  base_state_lem st existing s h = elim (Result-cases (next_refusal st.refusals)) [
    | inr (f, e) ↦ elim (Bool-cases (is_not_found f)) [
      | inl n ↦ inl (ground arith)
      | inr n ↦ absurd (ground arith)
    ]
    | inl (u, e) ↦ elim (Result-cases (decoded x parse_scheme definitions_equal st.stored)) [
      | inl (t, q) ↦
          let (there, named) = decoded_named st.stored t q in
          let same : t ≡ s = ground arith in
          inr (
            subst (λ u. (st.stored ≡ some u) × (((State.spec u).id == []) ≡ false)) same
              (there, named))
      | inr (f, q) ↦ elim (Bool-cases (is_not_found f)) [
        | inl n ↦ inl (ground arith)
        | inr n ↦ absurd (ground arith)
      ]
    ]
  ]

  module _ {C : Type 0} where
    -- An update keeps a sound store, if its change makes sound states of sound ones, and of none.
    pub update-Holds :
        (change : State → C → Result State × C) (c : C) (st : Store)
        → ((s s' : State)
            → (s ≡ blank_state) ⊎ (IsSound s × ((s.spec.id == []) ≡ false))
            → (change s c).0 ≡ ok s'
            → IsSound s')
        → Holds st.stored
        → Holds (update x parse_scheme definitions_equal change c st).1.1.stored
    unfolding update conclude
    update-Holds change c st keeps old = elim (Result-cases (next_refusal st.refusals)) [
      | inr (f, e) ↦ rw e old
      | inl (u, e) ↦
          elim (Result-cases (
            base_state x parse_scheme definitions_equal
              (load x parse_scheme definitions_equal (step st)))) [
                | inr (f, q) ↦ rw (e, q) old
                | inl (b, q) ↦
                    elim (Result-cases
                      (check_ledger x parse_scheme definitions_equal b.0 b.1 (step (step st)))) [
                        | inr (f, l) ↦ rw (e, q, l) old
                        | inl (v, l) ↦ elim (Result-cases (change b.1 c).0) [
                          | inr (f, r) ↦ rw (e, q, l, r) old
                          | inl (s', r) ↦
                              rw (e, q, l, r)
                                (finish_update-Holds b.0 b.1.revision s' (step (step (step st)))
                                  (keeps b.1 s' (sound_start (base_state_lem (step st) b.0 b.1 q))
                                    r)
                                  old)
                        ]
                      ]
              ]
    ]
      where
        sound_start :
            {s : State}
            → Start st.stored s
            → (s ≡ blank_state) ⊎ (IsSound s × ((s.spec.id == []) ≡ false))
        sound_start (inl p) = inl p
        sound_start (inr (there, named)) = inr (subst Holds there old, named)
