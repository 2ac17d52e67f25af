-- ===== src/Service/Resolve/Below.antt =====
-- Where the directories of a user's service are, by `resolveDirectories` of service/directories.go.
use compage_go.Base.{
  drop, ℕ, ◌≡◌, ◌≢◌, ◌⊎◌, inl, inr, refl, sym, ap, ◌∙◌, Bool, true, false, not, ◌||◌, Option, none,
  some, List, [], ◌∷◌, ◌++◌, ◌==◌, nat_comparable, list_comparable, list_same_iff, Bytes, lit,
  arith, All, All-append, subst, if◌then◌else◌,
}
use compage_go.Go.Strings.{split}
use compage_go.Go.Strings.Split.{Lacks, All-split, split-Lacks, split-ne-nil}
use compage_go.Go.Path.{slash, dot, dot_dot, clean, join_two}
use compage_go.Go.Path.Absolute.{IsProper, render, join_two-render, clean-IsProper}
use compage_go.Service.Errors.{Result, ok, err}
use compage_go.Service.Spec.{
  Specification, user, valid_parts, valid_relative_directory, name_character, name_characters,
  valid_service_name,
}
use compage_go.Service.Options.Valid.{NameOk, IsDeclared, ok_eq, if-eq-ok}
use compage_go.Service.Resolve.{
  AppDirectories, ManagedDirectories, Platform, user_directory_bases, directory_bases, value,
  user_child, given_name, wants_any, config_name, config_path, place, resolve_from, with_bases,
  nothing_managed, resolve_directories,
}

-- A clean absolute path
abbrev pub IsClean : Bytes → Type 0
IsClean p = (cs : List Bytes) × All IsProper cs × (p ≡ render cs)

-- The components of `b` are those of `a` and at least one more; none of them is empty, a dot or
-- two dots, or has a slash in it.
pub record Below (a b : Bytes) : Type 0 where
  pub parent : List Bytes
  pub more : List Bytes
  pub proper : All IsProper (parent ++ more)
  pub further : more ≢ []
  pub upper : a ≡ render parent
  pub lower : b ≡ render (parent ++ more)

-- A relative path that `Join` only adds.
abbrev pub IsRelative : Bytes → Type 0
IsRelative v = (v ≢ []) × All IsProper (split slash v)

join_two-Below : (a v : Bytes) → IsClean a → IsRelative v → Below a (join_two a v)
join_two-Below a v (cs, proper, e) (ne, h) = record {
  parent = cs;
  more = split slash v;
  proper = All-append IsProper cs (split slash v) proper h;
  further = split-ne-nil slash v;
  upper = e;
  lower = ap (λ t. join_two t v) e ∙ join_two-render cs proper v ne h;
}

Below-IsClean : (a b : Bytes) → Below a b → IsClean b
Below-IsClean a b l = (l.parent ++ l.more, l.proper, l.lower)

same_not : (p q : Bytes) → (p == q) ≡ false → p ≢ q
same_not p q h e = ground (arith, list_same_iff p q)

tested-IsProper :
    (p : Bytes) → Lacks slash p → (p == [] || p == dot || p == dot_dot) ≡ false → IsProper p
tested-IsProper p k h = (
  k,
  same_not p [] (ground arith),
  same_not p dot (ground arith),
  same_not p dot_dot (ground arith),
)

valid_parts-IsProper :
    (ps : List Bytes) → All (Lacks slash) ps → valid_parts ps ≡ true → All IsProper ps
unfolding valid_parts
valid_parts-IsProper [] l h = tt
valid_parts-IsProper (p ∷ ps) (k, l) h =
    (tested-IsProper p k (ground arith), valid_parts-IsProper ps l (ground arith))

valid_relative_directory-IsRelative : (v : Bytes) → valid_relative_directory v ≡ true → IsRelative v
unfolding valid_relative_directory
valid_relative_directory-IsRelative v h = (
  same_not v [] (ground arith),
  valid_parts-IsProper (split slash v) (All-split slash v) (ground arith),
)

-- A single component
IsProper-IsRelative : (c : Bytes) → IsProper c → IsRelative c
IsProper-IsRelative c p = (p.1, subst (All IsProper) (sym (split-Lacks slash c p.0)) (p, tt))

no_slash : (r : ℕ) → name_character r ≡ true → r ≢ slash
no_slash r h e = cc (subst (λ x. name_character x ≡ true) e h)

name_characters-Lacks : (v : Bytes) → name_characters v ≡ true → Lacks slash v
unfolding name_characters
name_characters-Lacks [] h = tt
name_characters-Lacks (r ∷ v) h =
    (no_slash r (ground arith), name_characters-Lacks v (ground arith))

-- The hidden directory that is named after a service
hidden_name-IsProper : (n : Bytes) → valid_service_name n ≡ true → IsProper (b'.' ∷ n)
unfolding valid_service_name
hidden_name-IsProper n h =
    let some_ : n ≢ [] = same_not n [] (ground arith) in
    let other : n ≢ dot = same_not n dot (ground arith) in
    (
      ((λ e. cc), name_characters-Lacks n (ground arith)),
      (λ e. cc),
      (λ e. some_ (ap (drop 1) e)),
      (λ e. other (ap (drop 1) e)),
    )

IsProper-run : IsProper (lit "run")
unfolding lit
IsProper-run = (((λ e. cc), ((λ e. cc), ((λ e. cc), tt))), (λ e. cc), (λ e. cc), (λ e. cc))

IsProper-lib : IsProper (lit "lib")
unfolding lit
IsProper-lib = (((λ e. cc), ((λ e. cc), ((λ e. cc), tt))), (λ e. cc), (λ e. cc), (λ e. cc))

IsProper-log : IsProper (lit "log")
unfolding lit
IsProper-log = (((λ e. cc), ((λ e. cc), ((λ e. cc), tt))), (λ e. cc), (λ e. cc), (λ e. cc))

if-cases : {A : Type 0} (b : Bool) (x y r : A) → (if b then x else y) ≡ r → (x ≡ r) ⊎ (y ≡ r)
if-cases true x y r h = inl h
if-cases false x y r h = inr h

module _ (platform : Platform) (s : Specification) (home : Bytes) (scope : (s.scope == user) ≡ true)
    (name : valid_service_name s.name ≡ true) (declared : IsDeclared s) where
  config_name-IsRelative : IsRelative (config_name s)
  config_name-IsRelative = subst IsRelative (sym by_user) (go s.config_dir declared.config)
    where
      by_user :
          config_name s ≡ (if given_name s.config_dir then value s.config_dir else b'.' ∷ s.name)
      by_user = ground arith

      go :
          (o : Option Bytes)
          → NameOk valid_relative_directory o
          → IsRelative (if given_name o then value o else b'.' ∷ s.name)
      go none h = IsProper-IsRelative _ (hidden_name-IsProper s.name name)
      go (some []) h = IsProper-IsRelative _ (hidden_name-IsProper s.name name)
      go (some (c ∷ v)) (inl e) = cc
      go (some (c ∷ v)) (inr e) = valid_relative_directory-IsRelative (c ∷ v) e

  user_child-IsRelative :
      (request : Option Bytes) (fallback : Bytes)
      → NameOk valid_relative_directory request
      → IsProper fallback
      → IsRelative (user_child (value request) fallback)
  user_child-IsRelative none fallback ok_ p = IsProper-IsRelative fallback p
  user_child-IsRelative (some []) fallback ok_ p = IsProper-IsRelative fallback p
  user_child-IsRelative (some (c ∷ v)) fallback (inl e) p = cc
  user_child-IsRelative (some (c ∷ v)) fallback (inr e) p =
      valid_relative_directory-IsRelative (c ∷ v) e

  -- Each directory that is declared is where it is to be.
  pub record Placed (d : ManagedDirectories) : Type 0 where
    pub config : d.has_config ≡ true → Below home d.paths.config
    pub runtime : d.has_runtime ≡ true → Below d.paths.config d.paths.runtime
    pub state : d.has_state ≡ true → Below d.paths.config d.paths.state
    pub logs : d.has_logs ≡ true → Below d.paths.config d.paths.logs

  config_path-Below :
      (bases : AppDirectories)
      → bases.config ≡ home
      → IsClean home
      → Below home (config_path s bases)
  config_path-Below bases same tidy =
      subst (Below home) (sym by_user)
        (join_two-Below home (config_name s) tidy config_name-IsRelative)
    where
      by_user : config_path s bases ≡ join_two home (config_name s)
      by_user = rw scope (ap (λ h. join_two h (config_name s)) same)

  place-Below :
      (bases : AppDirectories) (wanted : Bool) (request : Option Bytes) (base fallback : Bytes)
      → IsClean (config_path s bases)
      → NameOk valid_relative_directory request
      → IsProper fallback
      → wanted ≡ true
      → Below (config_path s bases) (place s bases wanted request base fallback)
  unfolding place
  place-Below bases wanted request base fallback tidy ok_ p w =
      subst (Below (config_path s bases)) (sym (nested wanted (s.scope == user) _ _ _ w scope)) (
        join_two-Below (config_path s bases) (user_child (value request) fallback) tidy
          (user_child-IsRelative request fallback ok_ p))
    where
      nested :
          (a b : Bool) (x y z : Bytes)
          → a ≡ true
          → b ≡ true
          → (if not a then x else if b then y else z) ≡ y
      nested a b x y z h k = rw (h, k) refl

  resolve_from-Placed :
      (bases : AppDirectories) → bases.config ≡ home → IsClean home → Placed (resolve_from s bases)
  unfolding resolve_from
  resolve_from-Placed bases same tidy =
      let config = config_path-Below bases same tidy in
      let under = Below-IsClean home (config_path s bases) config in
      record {
        config = λ _. config;
        runtime = place-Below bases _ s.runtime_dir _ _ under declared.runtime IsProper-run;
        state = place-Below bases _ s.state_dir _ _ under declared.state IsProper-lib;
        logs = place-Below bases _ s.log_dir _ _ under declared.logs IsProper-log;
      }

  user_directory_bases-ok :
      (bases : AppDirectories)
      → user_directory_bases home ≡ ok bases
      → (bases.config ≡ home) × IsClean home
  unfolding user_directory_bases
  user_directory_bases-ok bases h =
      let (fine, e) = if-eq-ok _ _ _ bases h in
      let (cs, proper, shown) = clean-IsProper home (ground arith) in
      let tidy : clean home ≡ home = (list_same_iff (clean home) home).0 (ground arith) in
      (sym (ap (λ b. b.config) (ok_eq _ bases e)), (cs, proper, sym tidy ∙ shown))

  directory_bases-user : directory_bases platform s.scope home ≡ user_directory_bases home
  unfolding directory_bases
  directory_bases-user = rw scope refl

  with_bases-ok :
      (r : Result AppDirectories) (d : ManagedDirectories)
      → with_bases s r ≡ ok d
      → (bases : AppDirectories) × (r ≡ ok bases) × (resolve_from s bases ≡ d)
  with_bases-ok (ok bases) d h = (bases, refl, ok_eq _ d h)
  with_bases-ok (err e) d h = cc

  -- If the directories of a user's service are resolved, the configuration directory is below the
  -- home directory, and the runtime, state and log directories that are declared are below the
  -- configuration directory: each is its parent with proper components more. The name of the service
  -- is valid, and so are the names that the options give.
  pub resolve_directories-Placed :
      (d : ManagedDirectories) → resolve_directories platform s home ≡ ok d → Placed d
  unfolding resolve_directories
  resolve_directories-Placed d h = elim (if-cases (not (wants_any s)) _ _ _ h) [
    | inl e ↦
        subst Placed (ok_eq (nothing_managed s) d e)
          (record { config = λ x. cc; runtime = λ x. cc; state = λ x. cc; logs = λ x. cc })
    | inr e ↦
        let (bases, found, made) =
          with_bases-ok _ d (ap (with_bases s) (sym directory_bases-user) ∙ e) in
        let (same, tidy) = user_directory_bases-ok bases found in
        subst Placed made (resolve_from-Placed bases same tidy)
  ]
