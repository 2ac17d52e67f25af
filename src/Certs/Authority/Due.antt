-- ===== src/Certs/Authority/Due.antt =====
-- certs/authority.go: the options and the result of `Ensure`, and what is due for rotation; `pendingKind` of
-- certs/trust.go.
use compage_go.Base.{
  ℕ, Bool, true, false, not, ◌&&◌, ◌||◌, Option, none, some, List, [], ◌∷◌, ◌==◌, nat_comparable,
  list_comparable, if◌then◌else◌, Bytes, lit, leb,
}
use compage_go.Go.Strconv.{ℤ, pos, negsuc, int_comparable}
use compage_go.Go.Map.{Map, lookup}
use compage_go.Certs.Errors.{
  PendingKind, pending_none, pending_root, pending_issuer, validation_error, panicked, Result, ok,
  err, ◌>>=◌, ◌>>◌, refuse,
}
use compage_go.Certs.Names.{normalize_display_name}
use compage_go.Certs.Definition.{IssuerDefinition}
use compage_go.Certs.Crypto.{Cert, Crypto, or_error}
use compage_go.Certs.State.{IssuerRecord, State}
use compage_go.Certs.Manager.{add_time}

pub record EnsureOptions : Type 0 where
  pub root_rotate_before : Option ℤ
  pub issuer_rotate_before : Map Bytes ℤ

pub record EnsureResult : Type 0 where
  pub created : Bool
  pub pending : Bool
  pub pending_kind : PendingKind
  pub root_generation : ℕ
  pub revision : ℕ
  pub issuers : List Bytes

abbrev pub no_result : EnsureResult
no_result = record {
  created = false;
  pending = false;
  pending_kind = pending_none;
  root_generation = 0;
  revision = 0;
  issuers = [];
}

-- twenty days
abbrev pub default_rotate_before : ℤ
default_rotate_before = pos 1728000000000000

-- `pendingKind` of certs/trust.go
unfoldable pub pending_kind_of : Bytes → PendingKind
pending_kind_of kind =
    if kind == lit "root"
    then pending_root
    else if kind == lit "issuer"
    then pending_issuer
    else pending_none

abbrev pub is_negative : ℤ → Bool
is_negative (pos n) = false
is_negative (negsuc n) = true

-- the loop over `o.issuerRotateBefore`
unfoldable pub check_rotations : Map Bytes ℤ → Result (Unit {0})
check_rotations [] = ok tt
check_rotations ((name, before) ∷ rest) = do
  refuse (is_negative before) (validation_error (lit "issuer rotate-before cannot be negative"))
  refuse (not (normal (normalize_display_name name)))
      (validation_error (lit "issuer rotation name must be normalized"))
  check_rotations rest
  where
    normal : Result Bytes → Bool
    normal (ok n) = n == name
    normal (err e) = false

unfoldable pub check_options : EnsureOptions → Result (Unit {0})
check_options o =
    refuse (negative o.root_rotate_before)
      (validation_error (lit "root rotate-before cannot be negative"))
    >> check_rotations o.issuer_rotate_before
  where
    negative : Option ℤ → Bool
    negative none = false
    negative (some v) = is_negative v

-- `(set && before == 0) || !notAfter.After(now.Add(before))`
unfoldable pub is_due : ℕ → Option ℤ → ℕ → Bool
is_due now none not_after = leb not_after (add_time now default_rotate_before)
is_due now (some before) not_after = before == pos 0 || leb not_after (add_time now before)

-- the loop over the issuers that asks for another of the same slug
unfoldable pub collides : IssuerDefinition → Map Bytes IssuerRecord → Bool
collides d [] = false
collides d ((slug, issuer) ∷ rest) =
    (issuer.definition.slug_name == d.slug_name && not (issuer.definition.name == d.name))
    || collides d rest

module _ (x : Crypto) where
  open x use {parse_certificate}

  -- The errors of these parses are dropped, and nil pointers followed.
  unfoldable pub active_certificate : IssuerRecord → Result Cert
  active_certificate issuer =
      or_error (lookup issuer.active_version issuer.versions) panicked >>= λ v.
      or_error (parse_certificate v.certificate_der) panicked

  unfoldable pub active_root_certificate : State → Result Cert
  active_root_certificate s = or_error (lookup s.active_root s.roots) panicked >>= λ r.
      or_error (parse_certificate r.certificate_der) panicked

  unfoldable pub due_issuers : ℕ → Map Bytes ℤ → Map Bytes IssuerRecord → Result (List Bytes)
  due_issuers now before [] = ok []
  due_issuers now before ((slug, issuer) ∷ rest) = do
    cert ← active_certificate issuer
    others ← due_issuers now before rest
    ok (
        if is_due now (lookup issuer.definition.name before) cert.not_after
        then slug ∷ others
        else others)
