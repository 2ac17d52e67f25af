-- ===== src/Certs/Issuing/Keeps.antt =====
-- What every access of `SignCSR` to the store and every reload of the manager keep, all of it keeps.
use compage_go.Base.{
  ℕ, zero, suc, ◌≡◌, ◌+◌, inl, inr, Bool, true, false, ◌==◌, nat_comparable, list_comparable, Bytes,
  lit, Bool-cases, Option-cases, Option,
}
use compage_go.Certs.Errors.{is_conflict, Result, ok, Result-cases}
use compage_go.Certs.Definition.{IssuerDefinition}
use compage_go.Certs.Sans.{Net}
use compage_go.Certs.Crypto.{Cert, Crypto, PublicKey, subject_key_id}
use compage_go.Certs.State.{State}
use compage_go.Certs.Store.{Store, LedgerRecord, step, load}
use compage_go.Certs.Ledger.{append_ledger}
use compage_go.Certs.Request.{Csr, SignOptions, Leaf, admit}
use compage_go.Certs.Issuing.{
  IssuerManager, Run, Round-cases, signer_of, entry_of, make_leaf, take_issuer, visited, visit,
  reload, catch_up, refresh, retry, recorded, is_free, signed, round, rounds, check_request,
  sign_csr,
}

module _ (x : Crypto) (parse_scheme : Bytes → Option Bytes)
    (definitions_equal : IssuerDefinition → IssuerDefinition → Bool) (net : Net)
    (others : ℕ → Store → Store) (P : IssuerManager x → Store → Type 0)
    (by_others : (m : IssuerManager x) (n : ℕ) (st : Store) → P m st → P m (others n st))
    (by_step : (m : IssuerManager x) (st : Store) → P m st → P m (step st))
    (by_append : (m : IssuerManager x) (r : LedgerRecord) (st : Store)
      → P m st
      → P m (append_ledger x parse_scheme definitions_equal net r st).1)
    (by_take : (m m' : IssuerManager x) (st : Store) (s : State)
      → P m st
      → load x parse_scheme definitions_equal st ≡ ok s
      → take_issuer x m.name m.slug_name m.closed s ≡ ok m'
      → P m' st) where
  -- of the manager and the store of a run
  abbrev Q : Run x → Type 0
  Q w = P w.manager w.store

  visit-keeps : (w : Run x) → Q w → Q (visit x parse_scheme definitions_equal net others w).1
  unfolding visit
  visit-keeps w h = by_step w.manager (others w.turn w.store) (by_others w.manager w.turn w.store h)

  reload-keeps : (w : Run x) → Q w → Q (reload x parse_scheme definitions_equal net others w).1
  unfolding reload visit
  reload-keeps w h =
      let m = w.manager in
      let st = others w.turn w.store in
      let there : P m st = by_others m w.turn w.store h in
      elim (Result-cases (load x parse_scheme definitions_equal st)) [
        | inr (f, l) ↦ rw l (by_step m st there)
        | inl (s, l) ↦ elim (Result-cases (take_issuer x m.name m.slug_name m.closed s)) [
          | inr (f, e) ↦ rw (l, e) (by_step m st there)
          | inl (m', e) ↦ rw (l, e) (by_step m' st (by_take m m' st s there l e))
        ]
      ]

  catch_up-keeps :
      (s : State) (w : Run x) → Q w → Q (catch_up x parse_scheme definitions_equal net others s w).1
  unfolding catch_up
  catch_up-keeps s w h = elim (Bool-cases (s.revision == w.manager.revision)) [
    | inl e ↦ rw e h
    | inr e ↦ rw e (reload-keeps w h)
  ]

  refresh-keeps : (w : Run x) → Q w → Q (refresh x parse_scheme definitions_equal net others w).1
  unfolding refresh
  refresh-keeps w h = elim (Bool-cases (w.manager.mode == lit "ledger")) [
    | inr e ↦ rw e h
    | inl e ↦ elim (Result-cases (visit x parse_scheme definitions_equal net others w).0) [
      | inr (f, q) ↦ rw (e, q) (visit-keeps w h)
      | inl (s, q) ↦
          let w' = (visit x parse_scheme definitions_equal net others w).1 in
          let kept = catch_up-keeps s w' (visit-keeps w h) in
          elim (Result-cases (catch_up x parse_scheme definitions_equal net others s w').0) [
            | inr (f, c) ↦ rw (e, q, c) kept
            | inl (u, c) ↦
                let w'' = (catch_up x parse_scheme definitions_equal net others s w').1 in
                rw (e, q, c) (by_others w''.manager w''.turn w''.store kept)
          ]
    ]
  ]

  retry-keeps :
      (leaf : Leaf) (w : Run x)
      → Q w
      → Q (retry x parse_scheme definitions_equal net others leaf w).1
  unfolding retry
  retry-keeps leaf w h =
      elim (Result-cases (visit x parse_scheme definitions_equal net others w).0) [
        | inr (f, e) ↦ rw e (visit-keeps w h)
        | inl (s, e) ↦
            let w' = (visit x parse_scheme definitions_equal net others w).1 in
            elim (Bool-cases (s.revision == w'.manager.revision)) [
              | inl q ↦ rw (e, q) (visit-keeps w h)
              | inr q ↦
                  elim (Result-cases (reload x parse_scheme definitions_equal net others w').0) [
                    | inl (u, r) ↦ rw (e, q, r) (reload-keeps w' (visit-keeps w h))
                    | inr (f, r) ↦ rw (e, q, r) (reload-keeps w' (visit-keeps w h))
                  ]
            ]
      ]

  recorded-keeps :
      (leaf : Leaf) (serial : Bytes) (c : Bytes × Cert) (w : Run x)
      → Q w
      → Q (recorded x parse_scheme definitions_equal net others leaf serial c w).1
  unfolding recorded
  recorded-keeps leaf serial (der, cert) w h =
      let r = entry_of x w.manager leaf serial der cert in
      let st = others w.turn w.store in
      let after : Result (Unit {0}) × Store =
        append_ledger x parse_scheme definitions_equal net r st in
      let next : Run x = record w { store = after.1; turn = w.turn + 1 } in
      let kept : P w.manager after.1 =
        by_append w.manager r st (by_others w.manager w.turn w.store h) in
      elim (Result-cases after.0) [
        | inl (u, e) ↦ rw e kept
        | inr (f, e) ↦ elim (Bool-cases (is_conflict f)) [
          | inr other ↦ rw (e, other) kept
          | inl conflict ↦
              elim (Result-cases (retry x parse_scheme definitions_equal net others leaf next).0) [
                | inl (u, q) ↦ rw (e, conflict, q) (retry-keeps leaf next kept)
                | inr (g, q) ↦ rw (e, conflict, q) (retry-keeps leaf next kept)
              ]
        ]
      ]

  signed-keeps :
      (leaf : Leaf) (key : PublicKey) (ski serial : Bytes) (w : Run x)
      → Q w
      → Q (signed x parse_scheme definitions_equal net others leaf key ski serial w).1
  unfolding signed
  signed-keeps leaf key ski serial w h =
      elim (Result-cases (make_leaf x w.manager leaf key serial ski)) [
        | inr (f, e) ↦ rw e h
        | inl (c, e) ↦ elim (Bool-cases (w.manager.mode == lit "ledger")) [
          | inl mode ↦ rw (e, mode) (recorded-keeps leaf serial c w h)
          | inr mode ↦ rw (e, mode) h
        ]
      ]

  round-keeps :
      (leaf : Leaf) (key : PublicKey) (ski : Bytes) (w : Run x)
      → Q w
      → Q (round x parse_scheme definitions_equal net others leaf key ski w).1
  unfolding round
  round-keeps leaf key ski w h = elim (Option-cases (x.random_serial w.draw)) [
    | inl e ↦ rw e h
    | inr (serial, e) ↦
        let next : Run x = record w { draw = w.draw + 1 } in
        let there = visited x parse_scheme definitions_equal net others next in
        let kept : Q there = by_others w.manager w.turn w.store h in
        elim (Bool-cases (w.manager.mode == lit "ledger")) [
          | inr mode ↦ rw (e, mode) (signed-keeps leaf key ski serial next h)
          | inl mode ↦
              elim (Result-cases
                (is_free x parse_scheme definitions_equal net others serial there)) [
                  | inr (f, q) ↦ rw (e, mode, q) kept
                  | inl (true, q) ↦ rw (e, mode, q) (signed-keeps leaf key ski serial there kept)
                  | inl (false, q) ↦ rw (e, mode, q) kept
                ]
        ]
  ]

  rounds-keeps :
      (n : ℕ) (leaf : Leaf) (key : PublicKey) (ski : Bytes) (w : Run x)
      → Q w
      → Q (rounds x parse_scheme definitions_equal net others n leaf key ski w).1
  unfolding rounds
  rounds-keeps zero leaf key ski w h = h
  rounds-keeps (suc n) leaf key ski w h =
      let w' = (round x parse_scheme definitions_equal net others leaf key ski w).1 in
      let kept = round-keeps leaf key ski w h in
      elim (Round-cases (round x parse_scheme definitions_equal net others leaf key ski w).0) [
        | inl (c, e) ↦ rw e kept
        | inr (inl (f, e)) ↦ rw e kept
        | inr (inr e) ↦ rw e (rounds-keeps n leaf key ski w' kept)
      ]

  -- the whole of SignCSR
  pub sign_csr-keeps :
      (o : SignOptions) (csr : Result Csr) (key : PublicKey) (now : ℕ) (w : Run x)
      → Q w
      → Q (sign_csr x parse_scheme definitions_equal net others o csr key now w).1
  unfolding sign_csr
  sign_csr-keeps o csr key now w h =
      elim (Result-cases
        (check_request x parse_scheme definitions_equal net others o csr w.manager.closed)) [
          | inr (f, e) ↦ rw e h
          | inl (u, e) ↦
              let w' = (refresh x parse_scheme definitions_equal net others w).1 in
              let kept = refresh-keeps w h in
              elim (Result-cases (refresh x parse_scheme definitions_equal net others w).0) [
                | inr (f, q) ↦ rw (e, q) kept
                | inl (v, q) ↦
                    elim (Result-cases (admit net o csr (ok tt) now (signer_of x w'.manager))) [
                      | inr (f, a) ↦ rw (e, q, a) kept
                      | inl (leaf, a) ↦ elim (Result-cases (subject_key_id x key)) [
                        | inr (f, k) ↦ rw (e, q, a, k) kept
                        | inl (ski, k) ↦ rw (e, q, a, k) (rounds-keeps 8 leaf key ski w' kept)
                      ]
                    ]
              ]
        ]
