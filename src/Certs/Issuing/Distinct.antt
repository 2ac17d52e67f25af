-- ===== src/Certs/Issuing/Distinct.antt =====
-- What `SignCSR` does to the ledger, failing or not.
use compage_go.Base.{
  ℕ, ◌≡◌, inl, inr, refl, Bool, false, Option, List, [], ◌∷◌, ◌++◌, ◌==◌, nat_comparable,
  list_comparable, Bytes, arith,
}
use compage_go.Certs.Errors.{Result, ok, err, ◌>>=◌, Result-cases}
use compage_go.Certs.Definition.{IssuerDefinition}
use compage_go.Certs.Sans.{Net}
use compage_go.Certs.Crypto.{Crypto, PublicKey}
use compage_go.Certs.Store.{
  Store, LedgerRecord, Torn, nothing, part, whole, step, next_refusal, load, refused, read_ledger,
}
use compage_go.Certs.Ledger.{
  is_entry, validate_ledger_authority, check_new, write_record, append_record, append_ledger,
}
use compage_go.Certs.Request.{Csr, SignOptions}
use compage_go.Certs.Issuing.Keeps.{sign_csr-keeps}
use compage_go.Certs.Issuing.{Run, sign_csr}

-- not the same serial of the same issuer version, and not the same certificate
abbrev pub Apart : LedgerRecord → LedgerRecord → Type 0
Apart q r =
    (is_entry r.issuer r.issuer_version r.serial q ≡ false)
    × ((q.fingerprint == r.fingerprint) ≡ false)

abbrev pub AllApart : List LedgerRecord → LedgerRecord → Type 0
AllApart [] r = Unit
AllApart (q ∷ rest) r = Apart q r × AllApart rest r

-- the records are apart from `q`, which comes before them
abbrev pub AllAfter : LedgerRecord → List LedgerRecord → Type 0
AllAfter q [] = Unit
AllAfter q (r ∷ rs) = Apart q r × AllAfter q rs

abbrev pub IsDistinct : List LedgerRecord → Type 0
IsDistinct [] = Unit
IsDistinct (q ∷ rest) = AllAfter q rest × IsDistinct rest

AllAfter-append :
    (q : LedgerRecord) (rs : List LedgerRecord) (r : LedgerRecord)
    → AllAfter q rs
    → Apart q r
    → AllAfter q (rs ++ r ∷ [])
AllAfter-append q [] r h a = (a, tt)
AllAfter-append q (p ∷ rs) r h a = (h.0, AllAfter-append q rs r h.1 a)

IsDistinct-append :
    (rs : List LedgerRecord) (r : LedgerRecord)
    → IsDistinct rs
    → AllApart rs r
    → IsDistinct (rs ++ r ∷ [])
IsDistinct-append [] r h a = (tt, tt)
IsDistinct-append (q ∷ rs) r h a = (AllAfter-append q rs r h.0 a.0, IsDistinct-append rs r h.1 a.1)

check_new-AllApart :
    (r : LedgerRecord) (rs : List LedgerRecord) → check_new r rs ≡ ok tt → AllApart rs r
unfolding check_new
check_new-AllApart r [] h = tt
check_new-AllApart r (q ∷ rs) h =
    ((ground arith, ground arith), check_new-AllApart r rs (ground arith))

append_record-IsDistinct :
    (r : LedgerRecord) (st : Store)
    → IsDistinct st.ledger
    → IsDistinct (append_record r st).1.ledger
unfolding append_record write_record read_ledger refused
append_record-IsDistinct r st h = elim (Result-cases (next_refusal st.refusals)) [
  | inr (f, e) ↦ rw e h
  | inl (u, e) ↦ elim (Result-cases (read_ledger (step st) >>= check_new r)) [
    | inr (f, q) ↦ rw (e, q) h
    | inl (v, q) ↦
        let grown =
          IsDistinct-append st.ledger r h (check_new-AllApart r st.ledger (ground arith)) in
        go grown e q (next_refusal (step st).refusals) st.torn refl refl
  ]
]
  where
    go :
        {u v : Unit {0}}
        → IsDistinct (st.ledger ++ r ∷ [])
        → next_refusal st.refusals ≡ ok u
        → (read_ledger (step st) >>= check_new r) ≡ ok v
        → (w : Result (Unit {0})) (t : Torn) → next_refusal (step st).refusals ≡ w
        → st.torn ≡ t
        → IsDistinct (append_record r st).1.ledger
    go grown e q (ok w) t n m = rw (e, q, n) grown
    go grown e q (err f) nothing n m = rw (e, q, n, m) h
    go grown e q (err f) part n m = rw (e, q, n, m) h
    go grown e q (err f) whole n m = rw (e, q, n, m) grown

module _ (x : Crypto) (parse_scheme : Bytes → Option Bytes)
    (definitions_equal : IssuerDefinition → IssuerDefinition → Bool) (net : Net) where
  append_ledger-IsDistinct :
      (r : LedgerRecord) (st : Store)
      → IsDistinct st.ledger
      → IsDistinct (append_ledger x parse_scheme definitions_equal net r st).1.ledger
  unfolding append_ledger
  append_ledger-IsDistinct r st h = elim (Result-cases (next_refusal st.refusals)) [
    | inr (f, e) ↦ rw e h
    | inl (u, e) ↦ elim (Result-cases (load x parse_scheme definitions_equal (step st))) [
      | inr (f, l) ↦ rw (e, l) h
      | inl (s, l) ↦ elim (Result-cases (validate_ledger_authority x net s r)) [
        | inr (f, a) ↦ rw (e, l, a) h
        | inl (v, a) ↦ rw (e, l, a) (append_record-IsDistinct r (step (step st)) h)
      ]
    ]
  ]

  -- No serial of an issuer version and no certificate stands twice in the ledger behind SignCSR, failing
  -- or not, if none did before and what others do meanwhile keeps to that.
  pub sign_csr-IsDistinct :
      (others : ℕ → Store → Store)
      → ((n : ℕ) (st : Store) → IsDistinct st.ledger → IsDistinct (others n st).ledger)
      → (o : SignOptions) (csr : Result Csr) (key : PublicKey) (now : ℕ) (w : Run x)
      → IsDistinct w.store.ledger
      → IsDistinct
          (sign_csr x parse_scheme definitions_equal net others o csr key now w).1.store.ledger
  sign_csr-IsDistinct others by_others =
      sign_csr-keeps x parse_scheme definitions_equal net others (λ m st. IsDistinct st.ledger)
        (λ m. by_others) (λ m st h. h) (λ m. append_ledger-IsDistinct) (λ m m' st s h l t. h)
