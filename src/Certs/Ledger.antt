-- ===== src/Certs/Ledger.antt =====
-- The issuance ledger of certs/file_store.go: `lookupLedger`, `listLedger`, `appendLedger` and `appendLedgerRecord`,
-- with `validateLedgerRecord` and `validateLedgerAuthority` of certs/validate.go and `usages` of
-- certs/models.go. The ledger's files are part of the store; a refusal stands for a check of the
-- storage, a lock or a write that fails.
use compage_go.Base.{
  ℕ, suc, ◌+◌, ◌-◌, ◌%◌, ◌^◌, Bool, true, false, not, ◌&&◌, ◌||◌, Option, none, some, List, [], ◌∷◌,
  ◌++◌, ◌==◌, nat_comparable, list_comparable, if◌then◌else◌, Bytes, lit, leb, ltb, map, length,
  take, drop,
}
use compage_go.Go.Map.{lookup}
use compage_go.Go.Strconv.{ℤ, pos, negsuc, atoi_value, itoa}
use compage_go.Go.Unicode.{to_lower}
use compage_go.Certs.Errors.{
  validation_error, panicked, not_found_error, conflict_error, corrupt_error, corrupt_by, foreign,
  Result, ok, err, ◌>>=◌, ◌>>◌, refuse,
}
use compage_go.Certs.Names.{identity_same}
use compage_go.Certs.Sans.{Url, Sans, Net, normalize_sans_allow_duplicates}
use compage_go.Certs.Definition.{IssuerDefinition, valid_profile}
use compage_go.Certs.Crypto.{
  Cert, Crypto, ExtKeyUsage, client_auth, server_auth, other_usage, identity_from_name,
  parse_cert_der,
}
use compage_go.Certs.State.{IssuerRecord, State, clock_skew}
use compage_go.Certs.Store.{
  Store, LedgerRecord, Torn, nothing, part, whole, step, next_refusal, load, read_ledger,
}

-- `usages`: of the key usages only the digital signature is one of a profile.
unfoldable pub usages : Bytes → List ExtKeyUsage
usages p =
    if p == lit "tls-client"
    then client_auth ∷ []
    else if p == lit "tls-server"
    then server_auth ∷ []
    else if p == lit "tls-client-server"
    then client_auth ∷ server_auth ∷ []
    else []

abbrev same_usage : ExtKeyUsage → ExtKeyUsage → Bool
same_usage client_auth client_auth = true
same_usage server_auth server_auth = true
same_usage other_usage other_usage = true
same_usage _ _ = false

abbrev same_usages : List ExtKeyUsage → List ExtKeyUsage → Bool
same_usages [] [] = true
same_usages (a ∷ as') (b ∷ bs) = same_usage a b && same_usages as' bs
same_usages _ _ = false

-- Does the certificate have the usages of the profile, which passed `valid`?
unfoldable pub has_usages : Cert → Bytes → Bool
unfolding usages
has_usages c p =
    c.digital_signature
    && (not c.cert_sign
        && (not c.crl_sign && (c.other_bits == 0 && same_usages c.ext_key_usage (usages p))))

-- `hex.DecodeString` succeeds
unfoldable pub is_hex : Bytes → Bool
is_hex [] = true
is_hex (a ∷ []) = false
is_hex (a ∷ b ∷ rest) = digit a && (digit b && is_hex rest)
  where
    digit : ℕ → Bool
    digit c =
        (leb b'0' c && leb c b'9') || ((leb b'a' c && leb c b'f') || (leb b'A' c && leb c b'F'))

module _ (net : Net) where
  -- SANs by what their JSON has of them
  unfoldable pub same_sans : Sans → Sans → Bool
  same_sans a b =
      a.dns_names == b.dns_names
      && (map ip_text a.ip_addresses == map ip_text b.ip_addresses
          && (map uri_text a.uris == map uri_text b.uris && a.email_addresses == b.email_addresses))
    where
      ip_text : Option Bytes → Bytes
      ip_text none = []
      ip_text (some ip) = net.ip_text ip

      uri_text : Option Url → Bytes
      uri_text none = []
      uri_text (some u) = u.text

module _ (x : Crypto) (net : Net) where
  -- the SANs of the certificate and those of the record
  unfoldable pub check_sans : Sans → Sans → Result (Unit {0})
  check_sans certified recorded = do
    a ←
        because (lit "invalid ledger certificate SAN")
          (normalize_sans_allow_duplicates net certified)
    b ← because (lit "invalid ledger SAN record") (normalize_sans_allow_duplicates net recorded)
    refuse (not (same_sans net a b)) (corrupt_error (lit "ledger SAN mismatch"))
    where
      because : Bytes → Result Sans → Result Sans
      because message (ok s) = ok s
      because message (err e) = err (corrupt_by message e)

  unfoldable pub validate_ledger_record : LedgerRecord → Result (Unit {0})
  validate_ledger_record r = do
    refuse
        (r.authority_revision == 0
          || (r.fingerprint == []
              || (r.issuer == []
                  || (r.issuer_version == 0 || (r.serial == [] || r.certificate_der == [])))))
        (corrupt_error (lit "incomplete ledger record"))
    c ← parse_cert_der x r.certificate_der
    refuse (not (x.fingerprint c == r.fingerprint))
        (corrupt_error (lit "ledger fingerprint mismatch"))
    refuse (not (c.serial == to_lower r.serial)) (corrupt_error (lit "ledger serial mismatch"))
    refuse (not (is_hex r.fingerprint)) (corrupt_by (lit "invalid ledger fingerprint") foreign)
    refuse
        (not (valid_profile r.profile)
          || (r.issued_at == 0
              || (r.expires_at == 0
                  || (not (c.not_after == r.expires_at)
                      || not (c.not_before + clock_skew == r.issued_at)))))
        (corrupt_error (lit "ledger certificate metadata mismatch"))
    refuse (not (identity_same (identity_from_name c.subject) r.subject))
        (corrupt_error (lit "ledger subject mismatch"))
    check_sans c.sans r.sans
    refuse (not (has_usages c r.profile)) (corrupt_error (lit "ledger profile usage mismatch"))

  unfoldable pub validate_ledger_authority : State → LedgerRecord → Result (Unit {0})
  validate_ledger_authority s r = do
    refuse (not (s.revision == r.authority_revision))
        (conflict_error (lit "authority revision changed during signing"))
    refuse (not (is_active (lookup r.issuer s.issuers)))
        (conflict_error (lit "active issuer changed during signing"))
    validate_ledger_record r
    where
      is_active : Option IssuerRecord → Bool
      is_active none = false
      is_active (some issuer) = issuer.active_version == r.issuer_version

-- `x.Issuer == issuer && x.IssuerVersion == version && x.Serial == serial`
unfoldable pub is_entry : Bytes → ℕ → Bytes → LedgerRecord → Bool
is_entry issuer version serial r =
    r.issuer == issuer && (r.issuer_version == version && r.serial == serial)

unfoldable pub find_entry : Bytes → ℕ → Bytes → List LedgerRecord → Result LedgerRecord
find_entry issuer version serial [] = err (not_found_error (lit "ledger certificate"))
find_entry issuer version serial (r ∷ rest) =
    if is_entry issuer version serial r then ok r else find_entry issuer version serial rest

unfoldable pub lookup_ledger : Bytes → ℕ → Bytes → Store → Result LedgerRecord
lookup_ledger issuer version serial st = read_ledger st >>= find_entry issuer version serial

-- the records of a page: `limit <= 0` stands for 100
unfoldable pub page_size : ℤ → ℕ
page_size (pos (suc n)) = suc n
page_size _ = 100

-- Is a sum of two numbers of 63 bits negative, as an `int`?
unfoldable pub overflows : ℕ → Bool
overflows n = leb (2 ^ 63) (n % 2 ^ 64)

-- `listLedger`: a page, and the cursor of the next one, if any. A negative end is not over the length,
-- and slices out of bounds.
unfoldable pub list_ledger : Bytes → ℤ → Store → Result (List LedgerRecord × Bytes)
list_ledger cursor limit st =
    read_ledger st >>= λ v. from v (if cursor == [] then pos 0 else atoi_value cursor)
  where
    cut : List LedgerRecord → ℕ → ℕ → List LedgerRecord × Bytes
    cut v start end =
        if ltb (length v) end
        then (drop start v, [])
        else (take (end - start) (drop start v), if ltb end (length v) then itoa (pos end) else [])

    from : List LedgerRecord → ℤ → Result (List LedgerRecord × Bytes)
    from v (negsuc n) = err (validation_error (lit "invalid ledger cursor"))
    from v (pos start) = do
      refuse (ltb (length v) start) (validation_error (lit "invalid ledger cursor"))
      refuse (overflows (start + page_size limit)) panicked
      ok (cut v start (start + page_size limit))

-- the loop of `appendLedgerRecord`
unfoldable pub check_new : LedgerRecord → List LedgerRecord → Result (Unit {0})
check_new r [] = ok tt
check_new r (q ∷ rest) = do
  refuse (is_entry r.issuer r.issuer_version r.serial q)
      (conflict_error (lit "issuer serial already recorded"))
  refuse (q.fingerprint == r.fingerprint) (conflict_error (lit "certificate already recorded"))
  check_new r rest

-- The line is written and synchronized. Of a line that is refused there may be all, or a part, which no
-- reading of the ledger takes from then on.
unfoldable pub write_record : LedgerRecord → Store → Result (Unit {0}) × Store
write_record r st = written (next_refusal st.refusals) st.torn
  where
    appended : Store
    appended = record (step st) { ledger = st.ledger ++ r ∷ [] }

    written : Result (Unit {0}) → Torn → Result (Unit {0}) × Store
    written (ok _) t = (ok tt, appended)
    written (err e) nothing = (err e, step st)
    written (err e) part = (
      err e,
      record (step st) {
        ledger_refusal = some (corrupt_error (lit "incomplete final ledger record"));
      },
    )
    written (err e) whole = (err e, appended)

unfoldable pub append_record : LedgerRecord → Store → Result (Unit {0}) × Store
append_record r st = locked (next_refusal st.refusals)
  where
    locked : Result (Unit {0}) → Result (Unit {0}) × Store
    locked (err e) = (err e, step st)
    locked (ok _) = checked (read_ledger (step st) >>= check_new r)
      where
        checked : Result (Unit {0}) → Result (Unit {0}) × Store
        checked (err e) = (err e, step st)
        checked (ok _) = write_record r (step st)

module _ (x : Crypto) (parse_scheme : Bytes → Option Bytes)
    (definitions_equal : IssuerDefinition → IssuerDefinition → Bool) (net : Net) where
  -- The first refusal is that of the storage or the authority's lock.
  unfoldable pub append_ledger : LedgerRecord → Store → Result (Unit {0}) × Store
  append_ledger r st = locked (next_refusal st.refusals)
    where
      authorized : Result (Unit {0}) → Result (Unit {0}) × Store
      authorized (err e) = (err e, step (step st))
      authorized (ok _) = append_record r (step (step st))

      loaded : Result State → Result (Unit {0}) × Store
      loaded (err e) = (err e, step (step st))
      loaded (ok s) = authorized (validate_ledger_authority x net s r)

      locked : Result (Unit {0}) → Result (Unit {0}) × Store
      locked (err e) = (err e, step st)
      locked (ok _) = loaded (load x parse_scheme definitions_equal (step st))
