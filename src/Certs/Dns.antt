-- ===== src/Certs/Dns.antt =====
-- `validDNSName` of certs/models.go and `matchesDNSSuffix` of certs/issuer.go.
use compage_go.Base.{
  ℕ, Bool, true, false, not, ◌&&◌, ◌||◌, none, some, List, [], ◌∷◌, ◌==◌, nat_comparable,
  list_comparable, if◌then◌else◌, Bytes, lit, length, ltb,
}
use compage_go.Base.Members.{contains}
use compage_go.Go.Strings.{has_prefix, cut_prefix, has_suffix, has_substring, split}
use compage_go.Go.Unicode.{is_alnum, to_lower, trim_space}

-- `strings.TrimPrefix` and `strings.TrimSuffix`, the suffix one byte
unfoldable pub trim_prefix : Bytes → Bytes → Bytes
trim_prefix s prefix = elim (cut_prefix s prefix) [ none ↦ s | some rest ↦ rest ]

unfoldable pub trim_suffix : ℕ → Bytes → Bytes
trim_suffix b [] = []
trim_suffix b (c ∷ []) = if c == b then [] else c ∷ []
trim_suffix b (c ∷ d ∷ s) = c ∷ trim_suffix b (d ∷ s)

unfoldable pub ends_with : ℕ → Bytes → Bool
ends_with b [] = false
ends_with b (c ∷ []) = c == b
ends_with b (c ∷ d ∷ s) = ends_with b (d ∷ s)

unfoldable pub starts_with : ℕ → Bytes → Bool
starts_with b [] = false
starts_with b (c ∷ s) = c == b

unfoldable pub all_label_bytes : Bytes → Bool
all_label_bytes [] = true
all_label_bytes (c ∷ s) = (is_alnum c || c == b'-') && all_label_bytes s

-- the loop over the labels
unfoldable pub valid_labels : List Bytes → Bool
valid_labels [] = true
valid_labels (label ∷ labels) =
    not (label == [] || (ltb 63 (length label) || (starts_with b'-' label || ends_with b'-' label)))
    && (all_label_bytes label && valid_labels labels)

-- behind the treatment of the wildcard
unfoldable pub valid_host : Bytes → Bool
valid_host name =
    not (name == [] || (ltb 253 (length name) || has_substring name (lit "..")))
    && valid_labels (split b'.' name)

unfoldable pub valid_dns_name : Bytes → Bool → Bool
valid_dns_name name wildcard =
    if wildcard && has_prefix name (lit "*.")
    then valid_host (trim_prefix name (lit "*."))
    else if contains name b'*'
    then false
    else valid_host name

-- how `matchesDNSSuffix` reads a suffix of a policy
unfoldable pub policy_suffix : Bytes → Bytes
policy_suffix suffix = to_lower (trim_prefix (trim_suffix b'.' (trim_space suffix)) (b'.' ∷ []))

unfoldable pub matches_one : Bytes → Bytes → Bool
matches_one name suffix = name == suffix || has_suffix name (b'.' ∷ suffix)

unfoldable pub matches_any : Bytes → List Bytes → Bool
matches_any name [] = false
matches_any name (suffix ∷ suffixes) =
    matches_one name (policy_suffix suffix) || matches_any name suffixes

unfoldable pub matches_dns_suffix : Bytes → List Bytes → Bool
matches_dns_suffix name suffixes = matches_any (to_lower (trim_suffix b'.' name)) suffixes
