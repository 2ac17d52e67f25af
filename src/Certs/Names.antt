-- ===== src/Certs/Names.antt =====
-- certs/models.go: `Identity` and its normalization, `normalizeDisplayName`; `slug` of
-- certs/authority.go.
pub mod Words
pub mod Stable
use compage_go.Base.{
  ℕ, ◌+◌, ◌≡◌, Bool, true, false, not, ◌&&◌, ◌||◌, List, [], ◌∷◌, ◌++◌, ◌==◌, nat_comparable,
  list_comparable, if◌then◌else◌, Bytes, lit, length, ltb, leb, map,
}
use compage_go.Go.Strings.{join}
use compage_go.Go.Unicode.{
  is_lower, is_upper, is_alnum, trim_space, fields, to_lower, to_lower_from,
}
use compage_go.Text.Slug.{slugify, lower_case}
use compage_go.Certs.Errors.{
  Failure, validation_error, validation_by, Result, ok, err, ◌>>=◌, ◌>>◌, refuse,
}

pub record Identity : Type 0 where
  pub organization : Bytes
  pub organizational_unit : Bytes
  pub country : Bytes
  pub province : Bytes
  pub locality : Bytes
  pub common_name : Bytes

abbrev pub no_identity : Identity
no_identity = record {
  organization = [];
  organizational_unit = [];
  country = [];
  province = [];
  locality = [];
  common_name = [];
}

-- `==` of identities
abbrev pub identity_same : Identity → Identity → Bool
identity_same a b =
    a.organization == b.organization
    && (a.organizational_unit == b.organizational_unit
        && (a.country == b.country
            && (a.province == b.province
                && (a.locality == b.locality && a.common_name == b.common_name))))

-- `strings.IndexFunc(s, unicode.IsControl) >= 0`: the control characters are those below 32, 127,
-- and the runes 0x80 to 0x9F, which are the bytes 0xC2 0x80 to 0xC2 0x9F. `after`: is the byte 0xC2
-- before?
unfoldable pub has_control : Bool → Bytes → Bool
has_control after [] = false
has_control after (c ∷ s) =
    (ltb c 32 || c == 127) || ((after && (leb 0x80 c && leb c 0x9F)) || has_control (c == 0xC2) s)

-- one round of the loop over the fields
unfoldable pub check_field : Bytes → Bytes → ℕ → Result (Unit {0})
check_field name value max = do
  refuse (has_control false value) (validation_error (name ++ lit " contains a control character"))
  refuse (ltb max (length value)) (validation_error (name ++ lit " is too long"))

-- `asciiLetters`
unfoldable pub ascii_letters : Bytes → Bool
ascii_letters [] = true
ascii_letters (c ∷ s) = (is_lower c || is_upper c) && ascii_letters s

abbrev pub trim_identity : Identity → Identity
trim_identity v = record {
  organization = trim_space v.organization;
  organizational_unit = trim_space v.organizational_unit;
  country = trim_space v.country;
  province = trim_space v.province;
  locality = trim_space v.locality;
  common_name = trim_space v.common_name;
}

unfoldable pub check_identity : Identity → Result (Unit {0})
check_identity v = do
  check_field (lit "organization") v.organization 128
  check_field (lit "organizational unit") v.organizational_unit 128
  check_field (lit "country") v.country 2
  check_field (lit "province") v.province 128
  check_field (lit "locality") v.locality 128
  check_field (lit "common name") v.common_name 253
  refuse (not (v.country == []) && (not (length v.country == 2) || not (ascii_letters v.country)))
      (validation_error (lit "country must contain exactly two characters"))

unfoldable pub normalize_identity : Identity → Result Identity
normalize_identity v = check_identity (trim_identity v) >> ok (trim_identity v)

-- `\t`, `\n`, `\v`, `\f` or `\r`
unfoldable pub has_control_space : Bytes → Bool
has_control_space [] = false
has_control_space (c ∷ s) = (leb 9 c && leb c 13) || has_control_space s

-- ASCII letters, digits and spaces only
unfoldable pub is_plain : Bytes → Bool
is_plain [] = true
is_plain (c ∷ s) = (c == 32 || is_alnum c) && is_plain s

unfoldable pub normalize_display_name : Bytes → Result Bytes
normalize_display_name given = do
  refuse (has_control_space given)
      (validation_error (lit "display name may contain spaces but no other whitespace"))
  let name = join (fields given) (lit " ")
  refuse (name == []) (validation_error (lit "display name is required"))
  refuse (not (is_plain name))
      (validation_error (lit "display name may contain only ASCII letters, digits, and spaces"))
  refuse (slugify name (lit "-") (lower_case ∷ []) == [])
      (validation_error (lit "display name has an empty storage identifier"))
  ok name

-- `strings.ReplaceAll(v, " ", "-")`
unfoldable pub dashes : Bytes → Bytes
dashes [] = []
dashes (c ∷ s) = (if c == 32 then b'-' else c) ∷ dashes s

unfoldable pub slug : Bytes → Bytes
slug v = to_lower (dashes v)
