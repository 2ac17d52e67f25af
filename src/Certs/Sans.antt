-- ===== src/Certs/Sans.antt =====
-- `SANs` and their normalization: certs/models.go, `normalizeSANsAllowDuplicates` and `mergeSANs` of
-- certs/issuer.go. The packages net and net/url are a parameter.
pub mod Unique
use compage_go.Base.{
  ℕ, zero, suc, ◌+◌, ◌≡◌, Bool, true, false, not, ◌&&◌, ◌||◌, Option, none, some, List, [], ◌∷◌,
  ◌++◌, ◌==◌, nat_comparable, list_comparable, if◌then◌else◌, Bytes, lit, length,
}
use compage_go.Base.Members.{contains}
use compage_go.Go.Strings.{contains_any}
use compage_go.Go.Unicode.{to_lower, trim_space}
use compage_go.Certs.Errors.{Failure, validation_error, Result, ok, err, ◌>>=◌, ◌>>◌, refuse}
use compage_go.Certs.Names.{has_control}
use compage_go.Certs.Dns.{trim_suffix, valid_dns_name}
use compage_go.Certs.Definition.{IpNet}

-- `text` is `u.String()`
pub record Url : Type 0 where
  pub scheme : Bytes
  pub text : Bytes

-- `none` is a nil net.IP or *url.URL
pub record Sans : Type 0 where
  pub dns_names : List Bytes
  pub ip_addresses : List (Option Bytes)
  pub uris : List (Option Url)
  pub email_addresses : List Bytes

abbrev pub no_sans : Sans
no_sans = record { dns_names = []; ip_addresses = []; uris = []; email_addresses = [] }

-- `ip.String()`, `network.Contains(ip)`, `strings.EqualFold`
pub record Net : Type 0 where
  pub ip_text : Bytes → Bytes
  pub contains_ip : IpNet → Bytes → Bool
  pub equal_fold : Bytes → Bytes → Bool

unfoldable pub normal_dns : Bytes → Bytes
normal_dns d = to_lower (trim_suffix b'.' (trim_space d))

unfoldable pub normalize_dns : Bytes → Result Bytes
normalize_dns d =
    refuse (not (valid_dns_name (normal_dns d) true)) (validation_error (lit "invalid DNS SAN"))
    >> ok (normal_dns d)

-- `ip.To16()` of an address is nil unless it has 4 or 16 bytes.
unfoldable pub normalize_ip : Option Bytes → Result Bytes
normalize_ip none = err (validation_error (lit "invalid IP SAN"))
normalize_ip (some ip) =
    refuse (not (length ip == 4 || length ip == 16)) (validation_error (lit "invalid IP SAN"))
    >> ok ip

unfoldable pub normalize_uri : Option Url → Result Url
normalize_uri none = err (validation_error (lit "invalid URI SAN"))
normalize_uri (some u) =
    refuse (u.scheme == [] || (u.text == [] || has_control false u.text))
      (validation_error (lit "invalid URI SAN"))
    >> ok u

-- what stands before and behind the last `@`, if there is one
unfoldable pub split_at : Bytes → Option (Bytes × Bytes)
split_at [] = none
split_at (c ∷ e) = further c e (split_at e)
  where
    further : ℕ → Bytes → Option (Bytes × Bytes) → Option (Bytes × Bytes)
    further c e (some (before, domain)) = some (c ∷ before, domain)
    further c e none = if c == b'@' then some ([], e) else none

unfoldable pub valid_email : Bytes → Bool
valid_email e = parts (split_at e)
  where
    parts : Option (Bytes × Bytes) → Bool
    parts none = false
    parts (some (before, domain)) = not (
        before == []
        || (domain == []
            || (contains_any e (32 ∷ 0 ∷ 13 ∷ 10 ∷ []) || not (valid_dns_name domain false))))

unfoldable pub normalize_email : Bytes → Result Bytes
normalize_email e =
    refuse (not (valid_email (trim_space e))) (validation_error (lit "invalid email SAN"))
    >> ok (trim_space e)

-- The four loops differ in how an entry is normalized, and by which key it is compared.
module _ {A B : Type 0} (normalize : A → Result B) (key : B → Bytes) where
  -- `normalizeSANs`: a key that was seen is an error
  unfoldable pub all_different : Bytes → List Bytes → List A → Result (List B)
  all_different duplicate seen [] = ok []
  all_different duplicate seen (a ∷ rest) = do
    b ← normalize a
    refuse (contains seen (key b)) (validation_error duplicate)
    others ← all_different duplicate (key b ∷ seen) rest
    ok (b ∷ others)

  -- `normalizeSANsAllowDuplicates`: it is passed over
  unfoldable pub without_repeats : List Bytes → List A → Result (List B)
  without_repeats seen [] = ok []
  without_repeats seen (a ∷ rest) = do
    b ← normalize a
    let again = without_repeats seen rest
    let fresh = without_repeats (key b ∷ seen) rest >>= λ others. ok (b ∷ others)
    if contains seen (key b) then again else fresh

abbrev pub itself : Bytes → Bytes
itself b = b

-- normalized entries, as entries
unfoldable pub somes {ℓ} : {A : Type ℓ} → List A → List (Option A)
somes [] = []
somes (a ∷ rest) = some a ∷ somes rest

module _ (net : Net) where
  unfoldable pub normalize_sans : Sans → Result Sans
  normalize_sans s = do
    dns ← all_different normalize_dns itself (lit "duplicate DNS SAN") [] s.dns_names
    ips ← all_different normalize_ip net.ip_text (lit "duplicate IP SAN") [] s.ip_addresses
    uris ← all_different normalize_uri (λ u. u.text) (lit "duplicate URI SAN") [] s.uris
    emails ← all_different normalize_email to_lower (lit "duplicate email SAN") [] s.email_addresses
    ok (record {
      dns_names = dns;
      ip_addresses = somes ips;
      uris = somes uris;
      email_addresses = emails;
    })

  unfoldable pub normalize_sans_allow_duplicates : Sans → Result Sans
  normalize_sans_allow_duplicates s = do
    dns ← without_repeats normalize_dns itself [] s.dns_names
    ips ← without_repeats normalize_ip net.ip_text [] s.ip_addresses
    uris ← without_repeats normalize_uri (λ u. u.text) [] s.uris
    emails ← without_repeats normalize_email to_lower [] s.email_addresses
    ok (record {
      dns_names = dns;
      ip_addresses = somes ips;
      uris = somes uris;
      email_addresses = emails;
    })

  unfoldable pub merge_sans : Sans → Sans → Result Sans
  merge_sans a b = normalize_sans_allow_duplicates (record {
    dns_names = a.dns_names ++ b.dns_names;
    ip_addresses = a.ip_addresses ++ b.ip_addresses;
    uris = a.uris ++ b.uris;
    email_addresses = a.email_addresses ++ b.email_addresses;
  })
