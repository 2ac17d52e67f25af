-- ===== src/Text/Slug.antt =====
-- `Slugify` of text/text.go. The separator is to be without `$`, which a replacement text expands,
-- and of ASCII characters.
pub mod Words
pub mod Runs
use compage_go.Base.{
  ℕ, Bool, true, false, not, List, [], ◌∷◌, ◌++◌, ◌==◌, nat_comparable, if◌then◌else◌, Bytes,
}
use compage_go.Base.Members.{contains}
use compage_go.Go.Unicode.{is_alnum, to_lower, to_upper, trim_set}

pub data Case : Type 0 where
  lower_case upper_case preserve : Case

-- `c` are the optional arguments.
unfoldable pub convert : List Case → Bytes → Bytes
convert [] input = to_lower input
convert (lower_case ∷ _) input = to_lower input
convert (upper_case ∷ _) input = to_upper input
convert (preserve ∷ _) input = input

-- `nonAlnum.ReplaceAllString`: `inside` a run that is replaced already?
unfoldable pub replace_runs : Bool → Bytes → Bytes → Bytes
replace_runs inside sep [] = []
replace_runs inside sep (c ∷ s) =
    let kept = c ∷ replace_runs false sep s in
    let rest = replace_runs true sep s in
    if is_alnum c then kept else if inside then rest else sep ++ rest

unfoldable pub slugify : Bytes → Bytes → List Case → Bytes
unfolding convert replace_runs
slugify input sep c = trim_set (contains sep) (replace_runs false sep (convert c input))
