-- ===== src/Text/Tests.antt =====
-- Runs of the functions of text on small texts.
use compage_go.Base.{
  ℕ, ◌≢◌, ◌∷◌, arith, ◌≡◌, refl, false, some, Bytes, lit, nat_comparable, list_comparable,
}
use compage_go.Go.Strings.{has_prefix}
use compage_go.Go.Strconv.{pos}
use compage_go.Text.Affixes.{strip_prefix, ensure_prefix, strip_prefix-ensure_prefix}
use compage_go.Text.Cut.{truncate, IsTruncated, truncate_bounds}

no_prefix : has_prefix (lit "name") (lit "app") ≡ false
unfolding has_prefix lit
no_prefix = refl

no_separator : (c : ℕ) (t : Bytes) → lit "name" ≡ c ∷ t → (c ≢ b'_') × (c ≢ b'-') × (c ≢ b'.')
unfolding lit
no_separator c t h = (ground arith, ground arith, ground arith)

strip_prefix-ensure_prefix_example :
    strip_prefix (ensure_prefix (lit "name") (lit "app")) (lit "app") ≡ lit "name"
strip_prefix-ensure_prefix_example =
    strip_prefix-ensure_prefix (lit "name") (lit "app") no_prefix no_separator

truncate_bounds_example :
    (r : Bytes) × (truncate (lit "a long text") (pos 6) (lit "...") ≡ some r)
    × IsTruncated (lit "a long text") 6 (lit "...") r
truncate_bounds_example = truncate_bounds (lit "a long text") 6 (lit "...")
