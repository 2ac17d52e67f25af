-- ===== src/Errx/Wrap/Hidden.antt =====
-- What `New` of errx/error.go makes, and hidden causes.
use compage_go.Base.{
  ℕ, zero, suc, refl, ◌∙◌, none, replicate, ◌==◌, nat_comparable, if◌then◌else◌, ◌<◌, length, ◌≡◌,
  ◌⊎◌, inl, inr, true, false, some, List, [], ◌∷◌, arith, Bytes, >>=-eq-some, Option-cases,
  List-cases, Bool-cases,
}
use compage_go.Errx.Tree.{pointer, nil, node, wrapped, deref, is_seen, mark, Heap}
use compage_go.Errx.Wrap.{
  Cause, Error, Config, Opt, nil_option, without_unwrap, with_kind, with_cause, is_nil_error,
  apply_option, apply_options, build, new, as_node, IsWellFormed, default_config,
}
use compage_go.Errx.Kind.{Kind, unknown, valid, classifies}
use compage_go.Errx.Inspect.{
  classify, kind_err, kind_links, kind_at, kind_of, unmarked, kind_node-none, kind_node-some,
  kinds_err, kinds_node, kinds_links, kinds_at, kinds_of,
}

abbrev CauseNotNil : Config → Type 0
CauseNotNil config = (c : Cause) → config.cause ≡ some c → is_nil_error c.err ≡ false

apply_option-CauseNotNil :
    (config : Config) (o : Opt) (next : Config)
    → CauseNotNil config
    → apply_option config o ≡ some next
    → CauseNotNil next
unfolding apply_option
apply_option-CauseNotNil config nil_option next n h c e = cc
apply_option-CauseNotNil config without_unwrap next n h c e = n c (ground arith)
apply_option-CauseNotNil config (with_kind k) next n h c e = n c (ground arith)
apply_option-CauseNotNil config (with_cause d) next n h c e = ground arith

apply_options-CauseNotNil :
    (config : Config) (os : List Opt) (last : Config)
    → CauseNotNil config
    → apply_options config os ≡ some last
    → CauseNotNil last
unfolding apply_options
apply_options-CauseNotNil config [] last n h = λ c e. n c (ground arith)
apply_options-CauseNotNil config (o ∷ os) last n h =
    let (next, first, rest) = >>=-eq-some (apply_option config o) _ h in
    apply_options-CauseNotNil next os last (apply_option-CauseNotNil config o next n first) rest

build-IsWellFormed :
    (message : Bytes) (config : Config) (e : Error)
    → CauseNotNil config
    → build message config ≡ some e
    → IsWellFormed e
unfolding build
build-IsWellFormed message config e n h = record {
  kind_valid = ground arith;
  says_something = elim (Option-cases config.cause) [
    | inr (c, p) ↦ inr (c, ground arith)
    | inl p ↦ elim (List-cases message) [
      | inl q ↦ absurd (ground arith)
      | inr q ↦ inl (ground arith)
    ]
  ];
  cause_not_nil = λ c p. n c (ground arith);
}

-- An `Error` that `New` returns has a valid kind, a message or a cause, and no nil cause.
pub new-IsWellFormed :
    (message : Bytes) (opts : List Opt) (e : Error) → new message opts ≡ some e → IsWellFormed e
unfolding new
new-IsWellFormed message opts e h =
    let (config, applied, built) = >>=-eq-some (apply_options default_config opts) _ h in
    build-IsWellFormed message config e
      (apply_options-CauseNotNil default_config opts config (λ c p. cc) applied) built

-- one of the options is `WithoutUnwrap`
abbrev pub Hides : List Opt → Type 0
Hides [] = ⊥
Hides (o ∷ os) = (o ≡ without_unwrap) ⊎ Hides os

-- A cause that is hidden stays so, and `WithoutUnwrap` hides it.
apply_option_hides :
    (config : Config) (o : Opt) (next : Config)
    → (config.unwrap ≡ false) ⊎ (o ≡ without_unwrap)
    → apply_option config o ≡ some next
    → next.unwrap ≡ false
unfolding apply_option
apply_option_hides config nil_option next n h = cc
apply_option_hides config without_unwrap next n h = ground arith
apply_option_hides config (with_kind k) next (inl n) h = ground arith
apply_option_hides config (with_kind k) next (inr n) h = cc
apply_option_hides config (with_cause d) next (inl n) h = ground arith
apply_option_hides config (with_cause d) next (inr n) h = cc

apply_options-hidden :
    (config : Config) (os : List Opt) (last : Config)
    → config.unwrap ≡ false
    → apply_options config os ≡ some last
    → last.unwrap ≡ false
unfolding apply_options apply_option
apply_options-hidden config [] last hidden h = ground arith
apply_options-hidden config (o ∷ os) last hidden h =
    let (next, first, rest) = >>=-eq-some (apply_option config o) _ h in
    apply_options-hidden next os last (apply_option_hides config o next (inl hidden) first) rest

apply_options-Hides :
    (config : Config) (os : List Opt) (last : Config)
    → Hides os
    → apply_options config os ≡ some last
    → last.unwrap ≡ false
unfolding apply_options
apply_options-Hides config [] last n h = absurd n
apply_options-Hides config (o ∷ os) last (inl is) h =
    let (next, first, rest) = >>=-eq-some (apply_option config o) _ h in
    apply_options-hidden next os last (apply_option_hides config o next (inr is) first) rest
apply_options-Hides config (o ∷ os) last (inr n) h =
    let (next, first, rest) = >>=-eq-some (apply_option config o) _ h in
    apply_options-Hides next os last n rest

new-hidden :
    (message : Bytes) (opts : List Opt) (e : Error)
    → Hides opts
    → new message opts ≡ some e
    → e.unwrap ≡ false
unfolding new build
new-hidden message opts e n h =
    let (config, applied, built) = >>=-eq-some (apply_options default_config opts) _ h in
    let hidden = apply_options-Hides default_config opts config n applied in ground arith

fresh : (n p : ℕ) → p < n → is_seen (replicate n false) p ≡ false
fresh zero p h = absurd (omega arith)
fresh (suc n) zero h = refl
fresh (suc n) (suc p) h = fresh n p (omega arith)

as_node-hidden : (e : Error) → e.unwrap ≡ false → as_node e ≡ node (some e.kind) (wrapped nil)
unfolding as_node
as_node-hidden e hidden = rw hidden refl

classify-own :
    (k : Kind) → valid k ≡ true → classify (some k) ≡ (if k == unknown then none else some k)
unfolding classify classifies
classify-own k h = ground arith

-- The kinds that there are without the cause: the error's own, if it has one other than `Unknown`.
abbrev pub own_kinds : Error → List Kind
own_kinds e = if e.kind == unknown then [] else e.kind ∷ []

-- A cause that `WithoutUnwrap` hides, wherever it stands among the options, has no part in what is
-- found behind a pointer to the `Error` that `New` returns: `KindOf` finds the error's own kind, and
-- none if that is `Unknown`, and `KindsOf` lists that one and no other.
pub kind_of-hidden :
    (message : Bytes) (opts : List Opt) (e : Error) (heap : Heap) (p : ℕ)
    → Hides opts
    → new message opts ≡ some e
    → p < length heap
    → deref heap p ≡ as_node e
    → (kind_of heap (pointer p) ≡ some (if e.kind == unknown then none else some e.kind))
      × (kinds_of heap (pointer p) ≡ some (own_kinds e))
unfolding kind_of kind_err kind_at kinds_of kinds_err kinds_at kinds_node kinds_links
kind_of-hidden message opts e heap p hides made inside at =
    let valid_kind = (new-IsWellFormed message opts e made).kind_valid in
    let bare : deref heap p ≡ node (some e.kind) (wrapped nil) =
      at ∙ as_node-hidden e (new-hidden message opts e hides made) in
    let unseen_yet = fresh (length heap) p inside in
    let visit = kind_at heap (length heap) in
    let s = mark (unmarked heap) p in
    elim (Bool-cases (e.kind == unknown)) [
      | inl q ↦
          let own = classify-own e.kind valid_kind ∙ rw q refl in
          (
            rw (unseen_yet, bare, q, kind_node-none visit (some e.kind) (wrapped nil) s own)
                (unfold kind_links in refl),
            rw (unseen_yet, bare, q, own) refl,
          )
      | inr q ↦
          let own : classify (some e.kind) ≡ some e.kind =
            classify-own e.kind valid_kind ∙ rw q refl in
          (
            rw
                (
                  unseen_yet,
                  bare,
                  q,
                  kind_node-some visit (some e.kind) (wrapped nil) s {k = e.kind} own,
                )
                refl,
            rw (unseen_yet, bare, q, own) refl,
          )
    ]
