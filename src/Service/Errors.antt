-- ===== src/Service/Errors.antt =====
-- service/errors.go, and the other errors that the package returns.
use compage_go.Base.{◌≡◌, ◌⊎◌, inl, inr, refl, Bool, true, false, Bytes}

-- Errors of the file system that the program tells apart, and any other.
pub data IoError : Type 0 where
  not_exist exist not_dir other : IoError

pub data Failure : Type 0 where
  -- *ValidationError, *PrivilegeError and *UnsupportedError without a cause
  validation : Bytes → Failure
  privilege : Bytes → Failure
  unsupported : Bytes → Failure
  -- *UnsupportedError with a cause, and errx.New with and without a cause
  unsupported_by : Bytes → Failure → Failure
  wrapped : Bytes → Failure → Failure
  plain : Bytes → Failure
  -- ctx.Err(), an error of strconv.Atoi, an error of a file operation, and an error of exec
  cancelled : Failure
  bad_number : Failure
  io : IoError → Failure
  command_failed not_found_in_path : Failure

-- `errors.Is(err, fs.ErrNotExist)`
unfoldable pub is_not_exist : Failure → Bool
is_not_exist (io not_exist) = true
is_not_exist (wrapped message cause) = is_not_exist cause
is_not_exist (unsupported_by capability cause) = is_not_exist cause
is_not_exist _ = false

pub data Result {ℓ} (A : Type ℓ) : Type ℓ where
  ok : A → Result A
  err : Failure → Result A

pub Result-cases {ℓ} :
    {A : Type ℓ} (r : Result A) → ((a : A) × (r ≡ ok a)) ⊎ ((e : Failure) × (r ≡ err e))
Result-cases (ok a) = inl (a, refl)
Result-cases (err e) = inr (e, refl)
