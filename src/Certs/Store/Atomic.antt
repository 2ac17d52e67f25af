-- ===== src/Certs/Store/Atomic.antt =====
-- What `update` of certs/file_store.go leaves behind, whatever the change is.
use compage_go.Base.{
  ℕ, ◌≡◌, ◌⊎◌, inl, inr, refl, Bool, not, ◌&&◌, Option, some, [], ◌==◌, Bytes, lit, nat_comparable,
  list_comparable, Bool-cases,
}
use compage_go.Certs.Errors.{Result, ok, Result-cases}
use compage_go.Certs.Definition.{IssuerDefinition}
use compage_go.Certs.Crypto.{Crypto}
use compage_go.Certs.State.{State}
use compage_go.Certs.Validate.{validate_state}
use compage_go.Certs.Store.{
  Store, step, next_refusal, load, next_revision, base_state, check_ledger, write_state,
  finish_update, conclude, update,
}

module _ (x : Crypto) (parse_scheme : Bytes → Option Bytes)
    (definitions_equal : IssuerDefinition → IssuerDefinition → Bool) where
  -- what was stored is still stored, or a valid state is, made of one that the change returned
  abbrev pub IsKept : (State → Type 0) → Store → Store → Type 0
  IsKept Made st st' =
      (st'.stored ≡ st.stored)
      ⊎ ((s : State) × (st'.stored ≡ some s)
          × (validate_state x parse_scheme definitions_equal s ≡ ok tt)
          × Made s)

  write_state-IsKept :
      (Made : State → Type 0) (s : State) (st : Store)
      → validate_state x parse_scheme definitions_equal s ≡ ok tt
      → Made s
      → IsKept Made st (write_state x parse_scheme definitions_equal s st).1
  unfolding write_state
  write_state-IsKept Made s st valid made = elim (Result-cases (next_refusal st.refusals)) [
    | inl (u, e) ↦ rw e (inr (s, refl, valid, made))
    | inr (f, e) ↦ rw e (inl refl)
  ]

  finish_update-IsKept :
      (Made : State → Type 0) (existing : Bool) (before : ℕ) (s : State) (st : Store)
      → Made (next_revision x parse_scheme definitions_equal before s)
      → IsKept Made st (finish_update x parse_scheme definitions_equal existing before s st).1
  unfolding finish_update
  finish_update-IsKept Made existing before s st made =
      let t = next_revision x parse_scheme definitions_equal before s in
      elim (Bool-cases (s.spec.id == [])) [
        | inl e ↦ rw e (inl refl)
        | inr e ↦ elim (Result-cases (validate_state x parse_scheme definitions_equal t)) [
          | inr (f, q) ↦ rw (e, q) (inl refl)
          | inl (u, q) ↦ elim (Bool-cases (t.spec.issuance_mode == lit "ledger" && not existing)) [
            | inr l ↦ rw (e, q, l) (write_state-IsKept Made t st q made)
            | inl l ↦ elim (Result-cases (next_refusal st.refusals)) [
              | inr (f, n) ↦ rw (e, q, l, n) (inl refl)
              | inl (v, n) ↦ rw (e, q, l, n) (write_state-IsKept Made t (step st) q made)
            ]
          ]
        ]
      ]

  module _ {C : Type 0} where
    -- the state is one that the change returned, with the next revision
    abbrev pub IsChanged : (State → C → Result State × C) → C → State → Type 0
    IsChanged change c s =
        (from : State) × (to : State) × ((change from c).0 ≡ ok to)
        × (s ≡ next_revision x parse_scheme definitions_equal from.revision to)

    -- An update is all or nothing: whatever the change is and whatever the system refuses, the file holds
    -- what it held before, or a state that validateState accepts and that the change has returned, with
    -- its revision set.
    pub update-IsKept :
        (change : State → C → Result State × C) (c : C) (st : Store)
        → IsKept (IsChanged change c) st (update x parse_scheme definitions_equal change c st).1.1
    unfolding update conclude
    update-IsKept change c st = elim (Result-cases (next_refusal st.refusals)) [
      | inr (f, e) ↦ rw e (inl refl)
      | inl (u, e) ↦
          elim (Result-cases (
            base_state x parse_scheme definitions_equal
              (load x parse_scheme definitions_equal (step st)))) [
                | inr (f, q) ↦ rw (e, q) (inl refl)
                | inl (b, q) ↦
                    elim (Result-cases
                      (check_ledger x parse_scheme definitions_equal b.0 b.1 (step (step st)))) [
                        | inr (f, l) ↦ rw (e, q, l) (inl refl)
                        | inl (v, l) ↦ elim (Result-cases (change b.1 c).0) [
                          | inr (f, r) ↦ rw (e, q, l, r) (inl refl)
                          | inl (s', r) ↦
                              rw (e, q, l, r)
                                (finish_update-IsKept (IsChanged change c) b.0 b.1.revision s'
                                  (step (step (step st))) (b.1, s', r, refl))
                        ]
                      ]
              ]
    ]
