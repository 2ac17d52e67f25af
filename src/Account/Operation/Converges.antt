-- ===== src/Account/Operation/Converges.antt =====
-- `run` of account/operation.go where it applies changes and returns no error.
use compage_go.Base.{
  ◌≡◌, refl, Bool, true, false, not, ◌||◌, Option, none, some, List, [], ◌∷◌, ◌++◌, ◌==◌,
  nat_comparable, list_comparable, if◌then◌else◌, Bytes, arith, ap,
}
use compage_go.Account.Spec.{
  Record, Spec, Change, EnsureResult, verify, require_home, ensure_home, validate,
  leave_home_unchanged,
}
use compage_go.Account.Backend.{Failure, ok, Os, is_not_found, is_unix, Backend}
use compage_go.Account.Compare.{compare_for}
use compage_go.Account.Operation.{
  missing_home, Outcome, is_empty, result_rule, if_rule, valid_rule, check_home, read_back, applied,
  mutate, create, on_missing, reconcile_changes, on_home, on_existing, run,
}

is_empty-eq : {A : Type 0} (xs : List A) → is_empty xs ≡ true → xs ≡ []
is_empty-eq [] h = refl
is_empty-eq (x ∷ xs) h = cc

is_empty-snoc : {A : Type 0} (xs : List A) (x : A) → is_empty (xs ++ x ∷ []) ≡ false
is_empty-snoc [] x = refl
is_empty-snoc (y ∷ ys) x = refl

valid_policy :
    (spec : Spec)
    → validate spec ≡ none
    → (spec.home_policy == leave_home_unchanged) ≡ false
    → (spec.home_policy == require_home) ≡ false
    → (spec.home_policy == ensure_home) ≡ true
unfolding validate
valid_policy spec v l r = ground arith

module _ {S : Type 0} (backend : Backend S) (os : Os) (root : Bool) (spec : Spec)
    (Present : S → Type 0)
    (seen : (s : S)
      → (backend.home_exists spec.home s).0 ≡ ok true
      → Present (backend.home_exists spec.home s).1) where
  -- no error goes with an account that differs, or without the home directory that is asked for
  abbrev pub Settled : Outcome S → Type 0
  Settled r =
      r.0.1 ≡ none
      → (compare_for os spec r.0.0.account ≡ [])
        × ((spec.home_policy == leave_home_unchanged) ≡ false → Present r.1)

  check_home-Settled :
      (wanted : Bool) (result : EnsureResult) (s : S)
      → compare_for os spec result.account ≡ []
      → ((spec.home_policy == leave_home_unchanged) ≡ false → wanted ≡ true)
      → Settled (check_home backend os root spec wanted result s)
  unfolding check_home
  check_home-Settled wanted result s same w =
      if_rule Settled (not wanted) _ _ (λ n _. (same, λ h. absurd (ground (arith, w h))))
        λ _.
          result_rule Settled (backend.home_exists spec.home s) _ _ (λ _ _ h. cc)
            λ there e.
              if_rule Settled there _ _ (λ t _. (same, λ _. seen s (ground (arith)))) λ _ h. cc

  read_back-Settled :
      (wanted : Bool) (result : EnsureResult) (s : S)
      → ((spec.home_policy == leave_home_unchanged) ≡ false → wanted ≡ true)
      → Settled (read_back backend os root spec wanted result s)
  unfolding read_back
  read_back-Settled wanted result s w =
      result_rule Settled (backend.lookup spec.name false s) _ _ (λ _ _ h. cc)
        λ account _.
          if_rule Settled (is_empty (compare_for os spec account)) _ _
            (λ e. check_home-Settled wanted _ _ (is_empty-eq _ e) w) λ _ h. cc

  applied-Settled :
      (r : (List Change × Option Failure) × S) (wanted : Bool) (result : EnsureResult)
      → ((spec.home_policy == leave_home_unchanged) ≡ false → wanted ≡ true)
      → Settled (applied backend os root spec r wanted result)
  unfolding applied
  applied-Settled ((completed, some f), s) wanted result w = λ h. cc
  applied-Settled ((completed, none), s) wanted result w = read_back-Settled wanted _ s w

  mutate-Settled :
      (existing : Option Record) (wanted : Bool) (message : Bytes) (result : EnsureResult) (s : S)
      → ((spec.home_policy == leave_home_unchanged) ≡ false → wanted ≡ true)
      → Settled (mutate backend os root spec existing wanted message result s)
  unfolding mutate
  mutate-Settled existing wanted message result s w =
      if_rule Settled (backend.cancelled s) _ _ (λ _ h. cc)
        λ _. applied-Settled (backend.apply spec existing s) wanted result w

  create-Settled : (s : S) → Settled (create backend os root spec true s)
  unfolding create
  create-Settled s =
      if_rule Settled (not root) _ _ (λ _ h. cc)
        λ _.
          mutate-Settled none (not (spec.home_policy == leave_home_unchanged)) _ _ s
            λ h. ap (λ b. not b) h

  on_missing-Settled : (f : Failure) (s : S) → Settled (on_missing backend os root spec true f s)
  unfolding on_missing
  on_missing-Settled f s =
      if_rule Settled (not (is_not_found f)) _ _ (λ _ h. cc)
        λ _.
          if_rule Settled (spec.group == []) _ _ (λ _ h. cc)
            λ _.
              result_rule Settled (backend.preflight spec false s) _ _ (λ _ _ h. cc)
                λ _ _. create-Settled _

  module _ (valid : validate spec ≡ none) where
    reconcile_changes-Settled :
        (found : Record) (changes : List Change) (s : S)
        → (is_empty changes ≡ true
            → (compare_for os spec found ≡ [])
              × ((spec.home_policy == leave_home_unchanged) ≡ false → Present s))
        → Settled (reconcile_changes backend os root spec true found changes s)
    unfolding reconcile_changes
    reconcile_changes-Settled found changes s same =
        if_rule Settled (is_empty changes) _ _ (λ e _. same e)
          λ _.
            if_rule Settled (spec.existing == verify || spec.home_policy == require_home) _ _
              (λ _ h. cc)
              λ strict.
                if_rule Settled (not root) _ _ (λ _ h. cc)
                  λ _.
                    mutate-Settled (some found) (spec.home_policy == ensure_home) _ _ s
                      λ h. valid_policy spec valid h (ground arith)

    on_home-Settled :
        (found : Record) (s : S)
        → Settled (on_home backend os root spec true found (compare_for os spec found) s)
    unfolding on_home
    on_home-Settled found s =
        if_rule Settled (spec.home_policy == leave_home_unchanged) _ _
          (λ l. reconcile_changes-Settled found _ s λ e. (is_empty-eq _ e, λ h. cc (l, h)))
          λ _.
            result_rule Settled (backend.home_exists spec.home s) _ _ (λ _ _ h. cc)
              λ there e. reconcile_changes-Settled found _ _ (whole there e)
      where
        whole :
            (there : Bool)
            → (backend.home_exists spec.home s).0 ≡ ok there
            → is_empty (
                if there
                then compare_for os spec found
                else compare_for os spec found ++ missing_home ∷ [])
              ≡ true
            → (compare_for os spec found ≡ [])
              × ((spec.home_policy == leave_home_unchanged) ≡ false
                  → Present (backend.home_exists spec.home s).1)
        whole true e h = (is_empty-eq _ h, λ _. seen s e)
        whole false e h = cc (is_empty-snoc (compare_for os spec found) missing_home, h)

    on_existing-Settled :
        (found : Record) (s : S) → Settled (on_existing backend os root spec true found s)
    unfolding on_existing
    on_existing-Settled found s =
        result_rule Settled (backend.preflight spec true s) _ _ (λ _ _ h. cc)
          λ _ _. on_home-Settled found _

  -- `Ensure` without an error leaves an account that agrees with the specification in every field
  -- that the specification gives, as the system last read it back, and leaves the home directory
  -- present, unless the specification leaves the home directory alone. `seen` says that
  -- what makes a home directory present holds once the system has reported it.
  pub run-Settled :
      (s : S)
      → (run backend os root spec true s).0.1 ≡ none
      → (compare_for os spec (run backend os root spec true s).0.0.account ≡ [])
        × ((spec.home_policy == leave_home_unchanged) ≡ false
            → Present (run backend os root spec true s).1)
  unfolding run
  run-Settled s =
      if_rule Settled (backend.cancelled s) _ _ (λ _ h. cc)
        λ _.
          valid_rule Settled (validate spec) _ _ (λ _ _ h. cc)
            λ v.
              if_rule Settled (not (is_unix os)) _ _ (λ _ h. cc)
                λ _.
                  result_rule Settled (backend.lookup spec.name false s) _ _
                    (λ f _. on_missing-Settled f _) λ found _. on_existing-Settled v found _
