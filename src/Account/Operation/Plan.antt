-- ===== src/Account/Operation/Plan.antt =====
-- `run` of account/operation.go where it does not apply changes, or without root.
use compage_go.Base.{
  ◌≡◌, Bool, true, false, not, ◌&&◌, ◌||◌, List, [], ◌==◌, nat_comparable, list_comparable, Bytes,
  arith,
}
use compage_go.Account.Spec.{
  Record, Spec, Change, verify, require_home, validate, leave_home_unchanged,
}
use compage_go.Account.Backend.{Failure, Os, is_not_found, is_unix, Backend}
use compage_go.Account.Operation.{
  Outcome, is_empty, result_rule, if_rule, valid_rule, create, on_missing, reconcile_changes,
  on_home, on_existing, run,
}

module _ {S : Type 0} (backend : Backend S) (os : Os) (root : Bool) (spec : Spec) (P : S → Type 0)
    (lookup_keeps : (key : Bytes) (by_id : Bool) (s : S) → P s → P (backend.lookup key by_id s).1)
    (home_keeps : (path : Bytes) (s : S) → P s → P (backend.home_exists path s).1)
    (preflight_keeps : (there : Bool) (s : S) → P s → P (backend.preflight spec there s).1)
    (applies : Bool) (plan : (root && applies) ≡ false) where
  abbrev Kept : Outcome S → Type 0
  Kept r = P r.1

  -- a Boolean fact about `root` and `applies` that cannot be
  mutating : not root ≡ false → not applies ≡ false → (Q : Type 0) → Q
  mutating r a Q = absurd (ground arith)

  create_keeps : (s : S) → P s → Kept (create backend os root spec applies s)
  unfolding create
  create_keeps s p =
      if_rule Kept (not root) _ _ (λ _. p)
        λ r. if_rule Kept (not applies) _ _ (λ _. p) λ a. mutating r a _

  on_missing_keeps :
      (f : Failure) (s : S) → P s → Kept (on_missing backend os root spec applies f s)
  unfolding on_missing
  on_missing_keeps f s p =
      if_rule Kept (not (is_not_found f)) _ _ (λ _. p)
        λ _.
          if_rule Kept (spec.group == []) _ _ (λ _. p)
            λ _.
              result_rule Kept (backend.preflight spec false s) _ _
                (λ _ _. preflight_keeps false s p) λ _ _. create_keeps _ (preflight_keeps false s p)

  reconcile_changes_keeps :
      (found : Record) (changes : List Change) (s : S)
      → P s
      → Kept (reconcile_changes backend os root spec applies found changes s)
  unfolding reconcile_changes
  reconcile_changes_keeps found changes s p =
      if_rule Kept (is_empty changes) _ _ (λ _. p)
        λ _.
          if_rule Kept (spec.existing == verify || spec.home_policy == require_home) _ _ (λ _. p)
            λ _.
              if_rule Kept (not root) _ _ (λ _. p)
                λ r. if_rule Kept (not applies) _ _ (λ _. p) λ a. mutating r a _

  on_home_keeps :
      (found : Record) (changes : List Change) (s : S)
      → P s
      → Kept (on_home backend os root spec applies found changes s)
  unfolding on_home
  on_home_keeps found changes s p =
      if_rule Kept (spec.home_policy == leave_home_unchanged) _ _
        (λ _. reconcile_changes_keeps found changes s p)
        λ _.
          result_rule Kept (backend.home_exists spec.home s) _ _ (λ _ _. home_keeps spec.home s p)
            λ _ _. reconcile_changes_keeps found _ _ (home_keeps spec.home s p)

  on_existing_keeps :
      (found : Record) (s : S) → P s → Kept (on_existing backend os root spec applies found s)
  unfolding on_existing
  on_existing_keeps found s p =
      result_rule Kept (backend.preflight spec true s) _ _ (λ _ _. preflight_keeps true s p)
        λ _ _. on_home_keeps found _ _ (preflight_keeps true s p)

  -- Without `apply`, or without root, `run` calls nothing of the backend that mutates: what the
  -- lookups, the checks of the home directory and the preflights keep of the host, `run` keeps.
  pub run_keeps : (s : S) → P s → P (run backend os root spec applies s).1
  unfolding run
  run_keeps s p =
      if_rule Kept (backend.cancelled s) _ _ (λ _. p)
        λ _.
          valid_rule Kept (validate spec) _ _ (λ _ _. p)
            λ _.
              if_rule Kept (not (is_unix os)) _ _ (λ _. p)
                λ _.
                  result_rule Kept (backend.lookup spec.name false s) _ _
                    (λ f _. on_missing_keeps f _ (lookup_keeps spec.name false s p))
                    λ found _. on_existing_keeps found _ (lookup_keeps spec.name false s p)
