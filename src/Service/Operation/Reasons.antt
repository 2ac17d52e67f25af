-- ===== src/Service/Operation/Reasons.antt =====
-- The reasons that `ensure` gives for a change.
use compage_go.Base.{◌≡◌, ◌||◌, List, [], ◌∷◌, list_comparable, nat_comparable, arith}
use compage_go.Base.Members.{
  contains, add_unique, IsUnique, contains-add_unique, IsUnique-add_unique,
}
use compage_go.Service.Operation.{ChangeReason, keep_reasons, unique_reasons}

keep_reasons-IsUnique :
    (out rest : List ChangeReason) → IsUnique out → IsUnique (keep_reasons out rest)
unfolding keep_reasons
keep_reasons-IsUnique out [] u = u
keep_reasons-IsUnique out (r ∷ rest) u =
    keep_reasons-IsUnique (add_unique out r) rest (IsUnique-add_unique out r u)

contains-keep_reasons :
    (out rest : List ChangeReason) (r : ChangeReason)
    → contains (keep_reasons out rest) r ≡ (contains out r || contains rest r)
unfolding keep_reasons
contains-keep_reasons out [] r = ground arith
contains-keep_reasons out (x ∷ rest) r =
    ground (arith, contains-keep_reasons (add_unique out x) rest r, contains-add_unique out x r)

-- `uniqueReasons` gives every reason that it is given, no other, and none twice.
pub unique_reasons-IsUnique :
    (reasons : List ChangeReason)
    → IsUnique (unique_reasons reasons)
      × ((r : ChangeReason) → contains (unique_reasons reasons) r ≡ contains reasons r)
unfolding unique_reasons
unique_reasons-IsUnique reasons =
    (keep_reasons-IsUnique [] reasons tt, contains-keep_reasons [] reasons)
