-- ===== src/Certs/Errors.antt =====
-- certs/errors.go: the errors, each with its kind, and `errNoMutation` of certs/store.go. A message is
-- kept; `validation_by` and the like carry a cause. `panicked` is a nil pointer that is followed.
use compage_go.Base.{◌≡◌, ◌⊎◌, inl, inr, refl, Bool, true, false, Bytes}
use compage_go.Errx.Kind.{
  Kind, invalid, validation, forbidden, not_found, conflict, unavailable, internal, unknown,
}

pub data PendingKind : Type 0 where
  pending_none pending_root pending_issuer : PendingKind

pub data Failure : Type 0 where
  validation_error not_found_error forbidden_error conflict_error : Bytes → Failure
  corrupt_error unavailable_error : Bytes → Failure
  validation_by not_found_by corrupt_by : Bytes → Failure → Failure
  -- *ConflictError with a *PendingConflictError as its cause
  pending_conflict_error : PendingKind → Failure
  drift_error : Bytes → Failure
  partial_operation_error : Bytes → Failure → Failure
  no_mutation : Failure
  -- an error of the system, of a crypto library or of JSON, and a panic
  foreign : Failure
  panicked : Failure

-- `Kind()`; errors of other packages have none
unfoldable pub kind : Failure → Kind
kind (validation_error _) = validation
kind (not_found_error _) = not_found
kind (forbidden_error _) = forbidden
kind (conflict_error _) = conflict
kind (corrupt_error _) = invalid
kind (unavailable_error _) = unavailable
kind (validation_by _ _) = validation
kind (not_found_by _ _) = not_found
kind (corrupt_by _ _) = invalid
kind (pending_conflict_error _) = conflict
kind (drift_error _) = conflict
kind (partial_operation_error _ _) = internal
kind _ = unknown

-- `errors.As` with a *NotFoundError: the error or one of its causes
unfoldable pub is_not_found : Failure → Bool
is_not_found (not_found_error _) = true
is_not_found (not_found_by _ _) = true
is_not_found (validation_by _ cause) = is_not_found cause
is_not_found (corrupt_by _ cause) = is_not_found cause
is_not_found (partial_operation_error _ cause) = is_not_found cause
is_not_found _ = false

-- `errors.As` with a *ConflictError
unfoldable pub is_conflict : Failure → Bool
is_conflict (conflict_error _) = true
is_conflict (pending_conflict_error _) = true
is_conflict (validation_by _ cause) = is_conflict cause
is_conflict (not_found_by _ cause) = is_conflict cause
is_conflict (corrupt_by _ cause) = is_conflict cause
is_conflict (partial_operation_error _ cause) = is_conflict cause
is_conflict _ = false

-- `errors.Is(err, errNoMutation)`
unfoldable pub is_no_mutation : Failure → Bool
is_no_mutation no_mutation = true
is_no_mutation (validation_by _ cause) = is_no_mutation cause
is_no_mutation (not_found_by _ cause) = is_no_mutation cause
is_no_mutation (corrupt_by _ cause) = is_no_mutation cause
is_no_mutation (partial_operation_error _ cause) = is_no_mutation cause
is_no_mutation _ = false

-- a value with a Go error beside it, of which one is nil
pub data Result {ℓ} (Value : Type ℓ) : Type ℓ where
  err : Failure → Result Value
  ok : Value → Result Value

-- `if err != nil { return err }` between two steps
infixl 5 ◌>>=◌ ◌>>◌
abbrev pub ◌>>=◌ {ℓ κ} : {X : Type ℓ} {Y : Type κ} → Result X → (X → Result Y) → Result Y
err failure >>= next = err failure
ok x >>= next = next x

abbrev pub ◌>>◌ {ℓ} : {Y : Type ℓ} → Result (Unit {0}) → Result Y → Result Y
check >> rest = check >>= λ _. rest

-- `if b { return e }`
abbrev pub refuse : Bool → Failure → Result (Unit {0})
refuse true e = err e
refuse false e = ok tt

pub Result-cases {ℓ} :
    {A : Type ℓ} (r : Result A) → ((a : A) × (r ≡ ok a)) ⊎ ((e : Failure) × (r ≡ err e))
Result-cases (ok a) = inl (a, refl)
Result-cases (err e) = inr (e, refl)

-- both steps of a chain that succeeds did
pub >>=-eq-ok {ℓ κ} :
    {X : Type ℓ} {Y : Type κ} (first : Result X) (next : X → Result Y) {y : Y}
    → (first >>= next) ≡ ok y
    → (x : X) × (first ≡ ok x) × (next x ≡ ok y)
>>=-eq-ok (err failure) next h = cc
>>=-eq-ok (ok x) next h = (x, refl, h)

pub >>-eq-ok {ℓ} :
    {B : Type ℓ} (m : Result (Unit {0})) (k : Result B) {b : B}
    → (m >> k) ≡ ok b
    → (m ≡ ok tt) × (k ≡ ok b)
>>-eq-ok (ok tt) k h = (refl, h)
>>-eq-ok (err e) k h = cc

-- Behind `refuse b e` the test was false.
pub refuse-eq-ok {ℓ} :
    {B : Type ℓ} (b : Bool) (e : Failure) (k : Result B) {r : B}
    → (refuse b e >> k) ≡ ok r
    → (b ≡ false) × (k ≡ ok r)
refuse-eq-ok true e k h = cc
refuse-eq-ok false e k h = (refl, h)
