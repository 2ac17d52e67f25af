-- ===== src/Service/Operation/Admission.antt =====
-- Operations of service/operation.go that are not admitted.
use compage_go.Base.{
  ◌≡◌, refl, Bool, true, false, ◌&&◌, ◌||◌, not, some, ◌++◌, ◌==◌, list_comparable, nat_comparable,
  Bytes, lit, arith,
}
use compage_go.Service.Errors.{Failure, wrapped, cancelled, privilege, err}
use compage_go.Service.Files.{Fs}
use compage_go.Service.Spec.{system}
use compage_go.Service.Operation.{Operation, PurgeOptions, no_result, system_preflight, admit}
use compage_go.Service.Operation.Ensure.{Backend, EnsureAccount, stopped_with, ensure}
use compage_go.Service.Operation.Commands.{purge, start, restart, stop, status, uninstall}

-- A system service that is run without root, or a context that is done.
abbrev pub refused : Bool → Operation → Bool
refused stopped o = stopped || (o.spec.scope == system && not o.root)

-- The error of the operation `what`
abbrev pub refusal : Bytes → Bool → Failure
refusal what true = wrapped (lit "service: " ++ (what ++ lit " cancelled")) cancelled
refusal what false = privilege (lit "manage system service")

admit-refused :
    (what : Bytes) (stopped : Bool) (o : Operation)
    → refused stopped o ≡ true
    → admit what stopped o ≡ err (refusal what stopped)
unfolding admit system_preflight
admit-refused what true o h = refl
admit-refused what false o h = ground arith

module _ {S : Type 0} (backend : Backend S) (ensure_account : EnsureAccount S) where
  -- Where the context is done, or a system service is managed without root, every operation of a
  -- manager fails with that error, and leaves files and service manager as they were.
  pub refused_keeps :
      (stopped : Bool) (o : Operation) (p : PurgeOptions) (w : Fs × S)
      → refused stopped o ≡ true
      → (ensure backend ensure_account stopped o w
          ≡ (stopped_with no_result (refusal (lit "ensure") stopped) o, w))
        × (start backend stopped o w ≡ (some (refusal (lit "start") stopped), w))
        × (restart backend stopped o w ≡ (some (refusal (lit "restart") stopped), w))
        × (stop backend stopped o w ≡ (some (refusal (lit "stop") stopped), w))
        × (status backend stopped o w ≡ (err (refusal (lit "status") stopped), w))
        × (uninstall backend stopped o w ≡ (some (refusal (lit "uninstall") stopped), w))
        × (purge stopped o p w.0 ≡ (err (refusal (lit "purge") stopped), w.0))
  unfolding ensure start restart stop status uninstall purge
  refused_keeps stopped o p w h =
      let at = λ (what : Bytes). admit-refused what stopped o h in
      (
        rw (at (lit "ensure")) refl,
        rw (at (lit "start")) refl,
        rw (at (lit "restart")) refl,
        rw (at (lit "stop")) refl,
        rw (at (lit "status")) refl,
        rw (at (lit "uninstall")) refl,
        rw (at (lit "purge")) refl,
      )
