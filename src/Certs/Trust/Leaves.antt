-- ===== src/Certs/Trust/Leaves.antt =====
-- Leaves and the roots that they are trusted by, across a rotation of the root.
use compage_go.Base.{
  ℕ, ◌+◌, ◌≤◌, ◌<◌, ◌≡◌, true, false, List, ◌==◌, nat_comparable, list_comparable, Bytes, lit,
  arith,
}
use compage_go.Go.Map.{Map}
use compage_go.Certs.Errors.{Result, ok}
use compage_go.Certs.Crypto.{Crypto}
use compage_go.Certs.State.{RootRecord, PendingManifest, State, clock_skew, maximum_leaf_validity}
use compage_go.Certs.Store.{Store, LedgerRecord, read_ledger}
use compage_go.Certs.Authority.Promote.{
  ledger_trust_deadline, retire_deadline, retire_root, promote,
}
use compage_go.Certs.Sans.{Net}
use compage_go.Certs.Request.{SignOptions, Csr, Signer, Leaf, admit}
use compage_go.Certs.Request.Admitted.{admit-bounds}
use compage_go.Certs.Trust.{is_untrusted}
use compage_go.Certs.Trust.Rotation.{
  IsTrusted, InLedger, IsUnder, ledger_trust_deadline-covers, old_root,
}

retired_trusted :
    (s : State) (t g deadline : ℕ) (old : RootRecord)
    → t < deadline
    → is_untrusted s t g (retire_root deadline old) ≡ false
unfolding is_untrusted retire_root
retired_trusted s t g deadline old h = ground arith

module _ (x : Crypto) (unlock : Bytes) (generated : Map ℕ Bytes) (st : Store) (now : ℕ)
    (p : PendingManifest) (s s' : State) (root : (p.kind == lit "root") ≡ true)
    (done : promote x unlock generated st now p s ≡ ok s') where
  -- The authority keeps no ledger: a leaf that was admitted by SignCSR no later than a root's
  -- replacement is promoted expires while the old root, under which its issuer may be, is still in the
  -- trust bundle.
  pub leaf-IsTrusted :
      (net : Net) (o : SignOptions) (csr : Result Csr) (ledger : Result (Unit {0})) (signed t : ℕ)
      (m : Signer) (leaf : Leaf)
      → (s.spec.issuance_mode == lit "ledger") ≡ false
      → admit net o csr ledger signed m ≡ ok leaf
      → signed ≤ now
      → t ≤ leaf.expires_at
      → IsTrusted s' t s.active_root
  unfolding retire_deadline
  leaf-IsTrusted net o csr ledger signed t m leaf mode admitted before until =
      let (old, deadline, at, how, there) = old_root x unlock generated st now p s s' root done in
      let (a, b, c, d) = admit-bounds net o csr ledger signed m leaf admitted in
      let is : now + (maximum_leaf_validity + clock_skew) ≡ deadline = ground arith in
      (
        retire_root deadline old,
        there,
        retired_trusted s' t s.active_root deadline old (omega arith),
      )

  -- The authority keeps a ledger: after the promotion the old root stays in the trust bundle until
  -- every certificate of the ledger that an issuer under it signed has expired.
  pub recorded-IsTrusted :
      (records : List LedgerRecord) (r : LedgerRecord) (t : ℕ)
      → (s.spec.issuance_mode == lit "ledger") ≡ true
      → read_ledger st ≡ ok records
      → InLedger r records
      → IsUnder s s.active_root r
      → t ≤ r.expires_at
      → IsTrusted s' t s.active_root
  unfolding retire_deadline
  recorded-IsTrusted records r t mode read inside under until =
      let (old, deadline, at, how, there) = old_root x unlock generated st now p s s' root done in
      let after = record s { active_root = p.root_generation } in
      let covers = ledger_trust_deadline-covers after s.active_root records r 0 inside under in
      let le : ledger_trust_deadline after s.active_root records 0 ≤ deadline = ground arith in
      (
        retire_root deadline old,
        there,
        retired_trusted s' t s.active_root deadline old (omega arith),
      )
