-- ===== src/Certs/Trust/Signed.antt =====
-- A leaf of `SignCSR`, and `PromotePending` after it, of an authority that keeps a ledger.
use compage_go.Base.{
  ℕ, ◌≤◌, ◌≡◌, Bool, true, ◌==◌, nat_comparable, list_comparable, List, Option, some, Bytes, lit,
  arith, subst, sym,
}
use compage_go.Go.Map.{Map}
use compage_go.Certs.Errors.{Result, ok}
use compage_go.Certs.Definition.{IssuerDefinition}
use compage_go.Certs.Sans.{Net}
use compage_go.Certs.Crypto.{Cert, Crypto, PublicKey}
use compage_go.Certs.State.{PendingManifest, State}
use compage_go.Certs.Store.{Store, LedgerRecord, read_ledger}
use compage_go.Certs.Request.{Csr, SignOptions}
use compage_go.Certs.Issuing.{Run, sign_csr}
use compage_go.Certs.Issuing.Recorded.{IsMadeBy, sign_csr-IsMadeBy}
use compage_go.Certs.Issuing.Origin.{
  InHistory, IsOf, IsOf-IsTaken, IsSignedUnder, made-IsSignedUnder, sign_csr-IsOf,
}
use compage_go.Certs.Authority.Promote.{promote}
use compage_go.Certs.Trust.Rotation.{InLedger, IsUnder, IsTrusted}
use compage_go.Certs.Trust.Leaves.{recorded-IsTrusted}

-- what is under root `g` in the one state is so in the other
abbrev pub StaysUnder : ℕ → State → State → Type 0
StaysUnder g s t = (r : LedgerRecord) → IsUnder s g r → IsUnder t g r

-- no record is lost
abbrev pub AreKept : List LedgerRecord → List LedgerRecord → Type 0
AreKept rs ts = (r : LedgerRecord) → InLedger r rs → InLedger r ts

module _ (x : Crypto) (parse_scheme : Bytes → Option Bytes)
    (definitions_equal : IssuerDefinition → IssuerDefinition → Bool) (net : Net)
    (others : ℕ → Store → Store) (history : ℕ → State) where
  -- A leaf that SignCSR returns is signed by the active version of an issuer, under the root that is
  -- active in what is then stored, and it expires while that root is still in the trust bundle, if the
  -- root is replaced by a promotion: up to then it stays active and what is under it stays so, and the
  -- ledger, that the authority keeps, loses no record. Each revision of the store is one state, from
  -- which the issuer's manager was made. Others may work on the store while SignCSR does, and another
  -- issuer version may have been promoted since the manager was made.
  pub signed-IsTrusted :
      (o : SignOptions) (csr : Result Csr) (key : PublicKey) (at : ℕ) (w w' : Run x) (der : Bytes)
      (cert : Cert) (from : State) (unlock : Bytes) (generated : Map ℕ Bytes) (st : Store) (now : ℕ)
      (p : PendingManifest) (s s' : State) (records : List LedgerRecord) (t : ℕ)
      → ((n : ℕ) (st' : Store)
          → InHistory x parse_scheme definitions_equal history st'
          → InHistory x parse_scheme definitions_equal history (others n st'))
      → IsOf x parse_scheme definitions_equal history w.manager
      → InHistory x parse_scheme definitions_equal history w.store
      → sign_csr x parse_scheme definitions_equal net others o csr key at w ≡ (ok (der, cert), w')
      → (w'.manager.mode == lit "ledger") ≡ true
      → w'.store.stored ≡ some from
      → s.active_root ≡ from.active_root
      → StaysUnder from.active_root from s
      → read_ledger st ≡ ok records
      → AreKept w'.store.ledger records
      → (s.spec.issuance_mode == lit "ledger") ≡ true
      → (p.kind == lit "root") ≡ true
      → promote x unlock generated st now p s ≡ ok s'
      → t ≤ cert.not_after
      → IsSignedUnder x parse_scheme definitions_equal from from.active_root key der
        × IsTrusted s' t from.active_root
  signed-IsTrusted o csr key at w w' der cert from unlock generated st now p s s' records t
        by_others taken there signed mode stored active stays read kept ledger root done until =
      let (from', r, known, made) =
        sign_csr-IsMadeBy x parse_scheme definitions_equal net others o csr key at w w' der cert
          signed mode in
      let same : from' ≡ from = let e = known.stored in ground arith in
      let under : IsUnder from from.active_root r =
        subst (λ u. IsUnder u (State.active_root u) r) same known.under in
      let made_now : IsMadeBy x parse_scheme definitions_equal net w'.manager key der from r =
        subst (λ u. IsMadeBy x parse_scheme definitions_equal net w'.manager key der u r) same
          made in
      let (taken', there') =
        subst
          (λ q.
            IsOf x parse_scheme definitions_equal history (Run.manager (q.1))
            × InHistory x parse_scheme definitions_equal history (Run.store (q.1)))
          signed
          (sign_csr-IsOf x parse_scheme definitions_equal history net others by_others o csr key at
            w taken there) in
      let is_taken =
        IsOf-IsTaken x parse_scheme definitions_equal history w'.manager w'.store from taken' there'
          stored made_now.revision in
      (
        made-IsSignedUnder x parse_scheme definitions_equal net w'.manager key der from r is_taken
            made_now,
        subst (λ g. IsTrusted s' t g) active
            (recorded-IsTrusted x unlock generated st now p s s' root done records r t ledger read
              (kept r known.inside) (subst (λ g. IsUnder s g r) (sym active) (stays r under))
              (let e = known.ends in omega (arith, e))),
      )
