-- ===== src/Go/Path.antt =====
-- The package path/filepath on Unix: `Clean` works through the components of a path from the left,
-- and drops empty ones and dots; two dots take back the component before them.
pub mod Absolute
use compage_go.Base.{
  ℕ, ◌≡◌, Bool, true, false, ◌&&◌, ◌||◌, not, List, [], ◌∷◌, ◌++◌, ◌==◌, nat_comparable,
  list_comparable, if◌then◌else◌, Bytes,
}
use mathlib.Core.List.{reverse}
use compage_go.Go.Strings.{split, join}

abbrev pub slash : ℕ
slash = b'/'

abbrev pub dot : Bytes
dot = b'.' ∷ []

abbrev pub dot_dot : Bytes
dot_dot = b'.' ∷ b'.' ∷ []

unfoldable pub is_abs : Bytes → Bool
is_abs [] = false
is_abs (c ∷ p) = c == slash

-- Two dots over the components so far, the last one first.
unfoldable pub take_back : Bool → List Bytes → List Bytes
take_back rooted [] = if rooted then [] else dot_dot ∷ []
take_back rooted (top ∷ rest) = if top == dot_dot then dot_dot ∷ top ∷ rest else rest

unfoldable pub add_component : Bool → List Bytes → Bytes → List Bytes
unfolding take_back
add_component rooted done c =
    if c == [] || c == dot then done else if c == dot_dot then take_back rooted done else c ∷ done

unfoldable pub components : Bool → List Bytes → List Bytes → List Bytes
unfolding add_component
components rooted done [] = done
components rooted done (c ∷ cs) = components rooted (add_component rooted done c) cs

unfoldable pub show_path : Bool → List Bytes → Bytes
show_path true cs = slash ∷ join cs (slash ∷ [])
show_path false [] = dot
show_path false (c ∷ cs) = join (c ∷ cs) (slash ∷ [])

-- `filepath.Clean`
unfoldable pub clean : Bytes → Bytes
unfolding is_abs components show_path split
clean p = show_path (is_abs p) (reverse (components (is_abs p) [] (split slash p)))

-- `filepath.Join` of two elements; empty ones are left out.
unfoldable pub join_two : Bytes → Bytes → Bytes
unfolding clean
join_two [] [] = []
join_two [] (c ∷ b) = clean (c ∷ b)
join_two (c ∷ a) [] = clean (c ∷ a)
join_two (c ∷ a) (d ∷ b) = clean ((c ∷ a) ++ slash ∷ (d ∷ b))

-- The last element that is not empty of the list, or a default.
last_part : Bytes → List Bytes → Bytes
last_part d [] = d
last_part d ([] ∷ cs) = last_part d cs
last_part d ((c ∷ p) ∷ cs) = last_part (c ∷ p) cs

-- `filepath.Base`
unfoldable pub base : Bytes → Bytes
unfolding last_part
base [] = dot
base (c ∷ p) = last_part (slash ∷ []) (split slash (c ∷ p))

-- What stands before the last slash, and that slash.
unfoldable pub up_to_slash : Bytes → Bytes
up_to_slash [] = []
up_to_slash (c ∷ p) = elim (up_to_slash p) [
  | d ∷ q ↦ c ∷ d ∷ q
  | [] ↦ if c == slash then c ∷ [] else []
]

-- `filepath.Dir`
unfoldable pub dir : Bytes → Bytes
unfolding up_to_slash clean
dir p = clean (up_to_slash p)
