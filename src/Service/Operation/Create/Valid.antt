-- ===== src/Service/Operation/Create/Valid.antt =====
-- What holds of every manager that `New` returns.
use compage_go.Base.{
  ◌≡◌, inl, inr, refl, subst, Bool, true, false, not, ◌&&◌, Option, none, some, List, [], ◌==◌,
  nat_comparable, list_comparable, Bytes, lit, Bool-cases, arith,
}
use compage_go.Service.Errors.{Failure, privilege, Result, ok, err}
use compage_go.Service.Spec.{Specification, system, validate}
use compage_go.Service.Options.{ServiceOption, apply_all, default_specification}
use compage_go.Service.Options.Valid.{IsDeclared, apply_all-IsDeclared, default_declared, ok_eq}
use compage_go.Service.Resolve.{platform_backend, validate_for}
use compage_go.Service.Operation.{User, Operation}
use compage_go.Service.Operation.Create.{◌>>=◌, checked, require, named, new}
use compage_go.Account.Backend.{Os}

bind-eq-ok :
    {A B : Type 0} (r : Result A) (f : A → Result B) (b : B)
    → (r >>= f) ≡ ok b
    → (a : A) × (r ≡ ok a) × (f a ≡ ok b)
bind-eq-ok (ok a) f b h = (a, refl, h)
bind-eq-ok (err e) f b h = cc

checked-eq-ok : (m : Option Bytes) (u : Unit {0}) → checked m ≡ ok u → m ≡ none
checked-eq-ok none u h = refl
checked-eq-ok (some m) u h = cc

require-eq-ok : (b : Bool) (e : Failure) (u : Unit {0}) → require b e ≡ ok u → b ≡ true
require-eq-ok true e u h = refl
require-eq-ok false e u h = cc

-- The specification passes the checks of the package and of the backend, its directories and log
-- files are well declared, and a system service is managed by root.
pub record IsValid (o : Operation) : Type 0 where
  pub valid : validate o.spec ≡ none
  pub fits : validate_for o.platform o.spec ≡ none
  pub privileged : (o.spec.scope == system) ≡ true → o.root ≡ true
  pub declared : IsDeclared o.spec

named-IsDeclared : (s : Specification) → IsDeclared s → IsDeclared (named s)
named-IsDeclared s d = elim (Bool-cases (s.name == [])) [ inl e ↦ rw e d | inr e ↦ rw e d ]

-- A manager that `New` returns is valid, whatever the options are.
pub new-IsValid :
    (os : Os) (root : Bool) (host_user : Result User) (opts : List ServiceOption) (o : Operation)
    → new os root host_user opts ≡ ok o
    → IsValid o
unfolding new
new-IsValid os root host_user opts o h =
    let (s, made, h1) = bind-eq-ok (apply_all opts default_specification) _ o h in
    let s' = named s in
    let (platform, _, h2) = bind-eq-ok (platform_backend os) _ o h1 in
    let (v, valid, h3) = bind-eq-ok (checked (validate s')) _ o h2 in
    let (w, fits, h4) = bind-eq-ok (checked (validate_for platform s')) _ o h3 in
    let denied = privilege (lit "manage system service") in
    let (x, allowed, h5) =
      bind-eq-ok (require (not (s'.scope == system && not root)) denied) _ o h4 in
    let (u, _, h6) = bind-eq-ok host_user _ o h5 in
    subst IsValid (ok_eq _ o h6) (record {
      valid = checked-eq-ok (validate s') v valid;
      fits = checked-eq-ok (validate_for platform s') w fits;
      privileged = λ e. privilege_needed s' root (require-eq-ok _ denied x allowed) e;
      declared =
          named-IsDeclared s
            (apply_all-IsDeclared opts default_specification s default_declared made);
    })
  where
    privilege_needed :
        (t : Specification) (root : Bool)
        → not (t.scope == system && not root) ≡ true
        → (t.scope == system) ≡ true
        → root ≡ true
    privilege_needed t root h e = ground arith
