-- ===== src/Certs/Trust/Rotation.antt =====
-- Trust across a rotation of the root: `buildTrustBundle` before and after `PromotePending`.
use compage_go.Base.{
  ℕ, ◌+◌, ◌≤◌, ◌≡◌, ◌⊎◌, inl, inr, sym, true, false, some, List, [], ◌∷◌, ◌==◌, nat_comparable,
  nat_beq_iff, list_comparable, Bytes, lit, arith, subst,
}
use compage_go.Go.Map.{Map, lookup, lookup-put_self}
use compage_go.Certs.Errors.{ok}
use compage_go.Certs.Crypto.{Crypto}
use compage_go.Certs.State.{
  RootRecord, IssuerVersion, IssuerRecord, PendingManifest, State, clock_skew,
}
use compage_go.Certs.Store.{Store, LedgerRecord, read_ledger}
use compage_go.Certs.Authority.Promote.{
  extend_deadline, ledger_trust_deadline, retire_deadline, retire_root, promote,
}
use compage_go.Certs.Sound.Promotion.{promote_parts, promote_root_parts, promoted_state, Rooted}
use compage_go.Certs.Trust.{is_untrusted}

-- the ledger has the record
abbrev pub InLedger : LedgerRecord → List LedgerRecord → Type 0
InLedger r [] = ⊥
InLedger r (q ∷ rest) = (q ≡ r) ⊎ InLedger r rest

-- the record is of a certificate that an issuer under root `g` signed
abbrev pub IsUnder : State → ℕ → LedgerRecord → Type 0
IsUnder s g r =
    (i : IssuerRecord) × (v : IssuerVersion) × (lookup r.issuer s.issuers ≡ some i)
    × (lookup r.issuer_version i.versions ≡ some v)
    × (v.root_generation ≡ g)

module _ (s : State) (g : ℕ) where
  extend_deadline-le : (r : LedgerRecord) (d : ℕ) → d ≤ extend_deadline s g r d
  unfolding extend_deadline
  extend_deadline-le r d = ground arith

  extend_deadline-covers :
      (r : LedgerRecord) (d : ℕ)
      → IsUnder s g r
      → r.expires_at + clock_skew ≤ extend_deadline s g r d
  unfolding extend_deadline
  extend_deadline-covers r d (i, v, at, there, under) =
      rw (at, there) (ground (arith, nat_beq_iff v.root_generation g))

  ledger_trust_deadline-le : (rs : List LedgerRecord) (d : ℕ) → d ≤ ledger_trust_deadline s g rs d
  unfolding ledger_trust_deadline
  ledger_trust_deadline-le [] d = omega arith
  ledger_trust_deadline-le (r ∷ rs) d =
      omega (arith, extend_deadline-le r d, ledger_trust_deadline-le rs (extend_deadline s g r d))

  -- The deadline is no earlier than the end of any certificate under the root, with the skew.
  pub ledger_trust_deadline-covers :
      (rs : List LedgerRecord) (r : LedgerRecord) (d : ℕ)
      → InLedger r rs
      → IsUnder s g r
      → r.expires_at + clock_skew ≤ ledger_trust_deadline s g rs d
  unfolding ledger_trust_deadline
  ledger_trust_deadline-covers [] r d i u = absurd i
  ledger_trust_deadline-covers (q ∷ rs) r d (inl same) u =
      let a = ledger_trust_deadline-le rs (extend_deadline s g q d) in
      let b : r.expires_at + clock_skew ≤ extend_deadline s g q d =
        subst (λ t. r.expires_at + clock_skew ≤ extend_deadline s g t d) (sym same)
          (extend_deadline-covers r d u) in
      omega arith
  ledger_trust_deadline-covers (q ∷ rs) r d (inr i) u =
      ledger_trust_deadline-covers rs r (extend_deadline s g q d) i u

-- a root is trusted at `t`
abbrev pub IsTrusted : State → ℕ → ℕ → Type 0
IsTrusted s t g = (r : RootRecord) × (lookup g s.roots ≡ some r) × (is_untrusted s t g r ≡ false)

module _ (x : Crypto) (unlock : Bytes) (generated : Map ℕ Bytes) (st : Store) (now : ℕ)
    (p : PendingManifest) (s s' : State) (root : (p.kind == lit "root") ≡ true)
    (done : promote x unlock generated st now p s ≡ ok s') where
  -- the old root after the promotion
  pub old_root :
      (old : RootRecord) × (deadline : ℕ) × (lookup s.active_root s.roots ≡ some old)
      × (retire_deadline
            (record s { active_root = p.root_generation })
            s.active_root
            (read_ledger st)
            now
          ≡ ok deadline)
      × (lookup s.active_root s'.roots ≡ some (retire_root deadline old))
  old_root =
      let (rooted, issuers, how, _, same) = promote_parts x unlock generated st now p s s' done in
      go rooted issuers how same
    where
      go :
          (rooted : State) (issuers : Map Bytes IssuerRecord)
          → Rooted now (read_ledger st) p s rooted
          → promoted_state rooted issuers ≡ s'
          → (old : RootRecord) × (deadline : ℕ) × (lookup s.active_root s.roots ≡ some old)
            × (retire_deadline
                  (record s { active_root = p.root_generation })
                  s.active_root
                  (read_ledger st)
                  now
                ≡ ok deadline)
            × (lookup s.active_root s'.roots ≡ some (retire_root deadline old))
      go rooted issuers (inr (no_root, _)) same = absurd (ground arith)
      go rooted issuers (inl (_, q)) same =
          let (old, deadline, at, until, is) =
            promote_root_parts now (read_ledger st) p s rooted q in
          (
            old,
            deadline,
            at,
            until,
            subst (λ u. lookup s.active_root (State.roots u) ≡ some (retire_root deadline old)) same
                (subst (λ u. lookup s.active_root (State.roots u) ≡ some (retire_root deadline old))
                  is (lookup-put_self s.active_root (retire_root deadline old) s.roots)),
          )
