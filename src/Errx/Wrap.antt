-- ===== src/Errx/Wrap.antt =====
-- errx/error.go: the wrapper `Error`, its options and its constructor `New`.
pub mod Hidden
use compage_go.Base.{
  ℕ, ◌≡◌, ◌≢◌, ◌⊎◌, inl, inr, refl, Bool, true, false, Option, none, some, List, [], ◌∷◌, ◌++◌,
  ◌&&◌, not, arith, Bytes, lit, if◌then◌else◌, ◌>>=◌, >>=-eq-some, Option-cases, Bool-cases,
}
use compage_go.Errx.Kind.{Kind, unknown, valid}
use compage_go.Errx.Tree.{Err, nil, typed_nil, pointer, value, Node, node, wrapped, Heap}
use compage_go.Errx.Inspect.{classify, kind_err, kind_at, kind_of}

-- An error of any type: what inspection sees of it, and the text of its `Error` method.
pub record Cause : Type 0 where
  pub err : Err
  pub text : Bytes

pub record Error : Type 0 where
  pub message : Bytes
  pub kind : Kind
  pub cause : Option Cause
  pub unwrap : Bool

-- The struct `options`.
pub record Config : Type 0 where
  pub kind : Kind
  pub cause : Option Cause
  pub unwrap : Bool

-- `WithKind`, `WithCause` and `WithoutUnwrap`; a caller can also pass a nil function, and a nil
-- error as the cause.
pub data Opt : Type 0 where
  nil_option without_unwrap : Opt
  with_kind : Kind → Opt
  with_cause : Cause → Opt

-- `isNilError`
unfoldable pub is_nil_error : Err → Bool
is_nil_error nil = true
is_nil_error typed_nil = true
is_nil_error (pointer p) = false
is_nil_error (value n) = false

-- One option; `none` is a panic.
unfoldable pub apply_option : Config → Opt → Option Config
unfolding is_nil_error
apply_option config nil_option = none
apply_option config without_unwrap = some (record config { unwrap = false })
apply_option config (with_kind k) = if valid k then some (record config { kind = k }) else none
apply_option config (with_cause c) =
    if is_nil_error c.err then none else some (record config { cause = some c })

unfoldable pub apply_options : Config → List Opt → Option Config
unfolding apply_option
apply_options config [] = some config
apply_options config (o ∷ os) = apply_option config o >>= λ next. apply_options next os

abbrev pub default_config : Config
default_config = record { kind = unknown; cause = none; unwrap = true }

abbrev pub is_empty : Bytes → Bool
is_empty [] = true
is_empty (_ ∷ _) = false

abbrev pub is_none {ℓ} : {A : Type ℓ} → Option A → Bool
is_none none = true
is_none (some _) = false

-- `New` after its options are applied.
unfoldable pub build : Bytes → Config → Option Error
build message config =
    if not (valid config.kind)
    then none
    else if is_empty message && is_none config.cause
    then none
    else some (record {
      message = message;
      kind = config.kind;
      cause = config.cause;
      unwrap = config.unwrap;
    })

-- `New`; `none` is a panic.
unfoldable pub new : Bytes → List Opt → Option Error
unfolding apply_options build
new message opts = apply_options default_config opts >>= build message

-- `Error.Error`, the receiver not nil.
unfoldable pub error_text : Error → Bytes
error_text e = elim e.cause [
  | none ↦ e.message
  | some c ↦
      if is_empty e.message
      then c.text
      else if not e.unwrap
      then e.message
      else e.message ++ (lit ": " ++ c.text)
]

-- `Error.Unwrap`
unfoldable pub unwrap : Error → Err
unwrap e = if not e.unwrap then nil else elim e.cause [ none ↦ nil | some c ↦ c.err ]

-- What inspection sees of an `Error`: the methods `Kind` and `Unwrap`.
unfoldable pub as_node : Error → Node
unfolding unwrap
as_node e = node (some e.kind) (wrapped (unwrap e))

-- What `New` guarantees of an `Error`.
pub record IsWellFormed (e : Error) : Type 0 where
  pub kind_valid : valid e.kind ≡ true
  pub says_something : (e.message ≢ []) ⊎ ((c : Cause) × (e.cause ≡ some c))
  pub cause_not_nil : (c : Cause) → e.cause ≡ some c → is_nil_error c.err ≡ false
