-- ===== src/Account/Compare.antt =====
-- account/operation.go: a record compared with its specification.
pub mod Agrees
pub mod Multiset
use compage_go.Base.{
  ℕ, Bool, true, false, not, ◌&&◌, ◌||◌, Option, none, some, List, [], ◌∷◌, ◌++◌, ◌==◌,
  nat_comparable, list_comparable, if◌then◌else◌, Bytes, lit, leb, ltb,
}
use compage_go.Go.Strings.{join}
use compage_go.Go.Strconv.{ℤ, itoa, format_bool}
use compage_go.Account.Spec.{
  Record, Spec, Change, EnsureResult, leave_home_unchanged, require_home, ensure_home, verify,
  validate, or_empty, given,
}
use compage_go.Account.Backend.{Os, is_darwin}

abbrev pub change : Bytes → Bytes → Bytes → Change
change f b a = record { field = f; before = b; after = a }

abbrev pub absent : Bytes → Bytes → Change
absent f a = change f (lit "absent") a

abbrev pub when_given {ℓ} : {A : Type ℓ} → Option A → (A → List Change) → List Change
when_given none f = []
when_given (some a) f = f a

abbrev pub when : Bool → List Change → List Change
when true cs = cs
when false cs = []

-- `creationChanges`
unfoldable pub creation_changes : Spec → List Change
creation_changes s =
    absent (lit "account") (lit "present")
    ∷ (when_given s.uid (λ u. absent (lit "uid") (itoa u) ∷ [])
        ++ (when (not (s.group == [])) (absent (lit "group") s.group ∷ [])
            ++ (when_given s.gid (λ g. absent (lit "gid") (itoa g) ∷ [])
                ++ (when (not (s.home_policy == leave_home_unchanged))
                      (absent (lit "home") s.home ∷ [])
                    ++ (when (not (s.shell == [])) (absent (lit "shell") s.shell ∷ [])
                        ++ when_given s.groups
                            (λ gs. absent (lit "groups") (join gs (lit ",")) ∷ []))))))

-- Lexicographic order of byte strings.
unfoldable pub bytes_leb : Bytes → Bytes → Bool
bytes_leb [] b = true
bytes_leb (c ∷ a) [] = false
bytes_leb (c ∷ a) (d ∷ b) = ltb c d || (c == d && bytes_leb a b)

-- `sort.Strings`
unfoldable pub insert_string : Bytes → List Bytes → List Bytes
insert_string x [] = x ∷ []
insert_string x (y ∷ ys) = if bytes_leb x y then x ∷ y ∷ ys else y ∷ insert_string x ys

unfoldable pub sort_strings : List Bytes → List Bytes
unfolding insert_string
sort_strings [] = []
sort_strings (x ∷ xs) = insert_string x (sort_strings xs)

-- `sameStrings`
unfoldable pub same_strings : List Bytes → List Bytes → Bool
unfolding sort_strings
same_strings a b = join (sort_strings a) (0 ∷ []) == join (sort_strings b) (0 ∷ [])

-- The closure `add` of `compare`.
abbrev pub add : Bytes → Bytes → Bytes → List Change
add f a b = when (not (a == b)) (change f a b ∷ [])

-- The six tests of `compare`.
module _ (s : Spec) (r : Record) where
  abbrev pub compare_uid : List Change
  compare_uid = when_given s.uid (λ u. add (lit "uid") r.uid (itoa u))

  abbrev pub compare_group : List Change
  compare_group = when (not (s.group == [])) (add (lit "group") r.group s.group)

  abbrev pub compare_gid : List Change
  compare_gid = when_given s.gid (λ g. add (lit "gid") r.gid (itoa g))

  abbrev pub compare_home : List Change
  compare_home = when (not (s.home_policy == leave_home_unchanged)) (add (lit "home") r.home s.home)

  abbrev pub compare_shell : List Change
  compare_shell = when (not (s.shell == [])) (add (lit "shell") r.shell s.shell)

  abbrev pub compare_groups : List Change
  compare_groups = when_given s.groups λ gs.
      when (not (same_strings r.groups gs))
        (change (lit "groups") (join r.groups (lit ",")) (join gs (lit ",")) ∷ [])

-- `compare`
unfoldable pub compare_record : Spec → Record → List Change
compare_record s r =
    compare_uid s r
    ++ (compare_group s r
        ++ (compare_gid s r ++ (compare_home s r ++ (compare_shell s r ++ compare_groups s r))))

abbrev pub differs : Bool → Bool → Bool
differs true b = not b
differs false b = b

-- The part of `compareFor` that only macOS has.
unfoldable pub compare_hidden : Os → Spec → Record → List Change
compare_hidden os s r = when (is_darwin os) (
    when_given s.hidden (λ h.
      when (differs r.hidden h)
        (change (lit "hidden") (format_bool r.hidden) (format_bool h) ∷ [])))

-- `compareFor`
unfoldable pub compare_for : Os → Spec → Record → List Change
unfolding compare_record compare_hidden
compare_for os s r = compare_record s r ++ compare_hidden os s r
