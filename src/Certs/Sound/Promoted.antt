-- ===== src/Certs/Sound/Promoted.antt =====
-- The issuers behind the loops of `PromotePending` and `DiscardPending`.
use compage_go.Base.{
  ℕ, ◌≡◌, refl, sym, ◌∙◌, false, ◌||◌, ◌&&◌, Option, none, some, [], ◌==◌, nat_comparable,
  list_comparable, Bytes, lit, arith, if◌then◌else◌, subst,
}
use compage_go.Go.Map.{Map, lookup, UniqueKeys}
use compage_go.Certs.Errors.{ok}
use compage_go.Certs.State.{RootRecord, IssuerRecord, PendingManifest, State}
use compage_go.Certs.Validate.{is_root, pending_generation, root_needs_key}
use compage_go.Certs.Authority.Promote.{promote_issuer, discard_version, for_pending}
use compage_go.Certs.Sound.{IsSoundIssuer, IsSoundPending, IsSound, staged_version}
use compage_go.Certs.Sound.Issuer.{IsSoundIssuer-promote, IsSoundIssuer-discard, IsSoundIssuer-keep}
use compage_go.Certs.Sound.Loops.{changed, lookup-for_pending}

-- the sound state with `p` pending, seen through `p`
module _ (s : State) (p : PendingManifest) (sound : IsSound s) (is : s.pending ≡ some p) where
  pub here : IsSoundPending s (some p)
  here = subst (λ o. IsSoundPending s o) is sound.pending

  abbrev pub generation : ℕ
  generation = if p.kind == lit "root" then p.root_generation else s.active_root

  pub issuer_of :
      (slug : Bytes) (i : IssuerRecord)
      → lookup slug s.issuers ≡ some i
      → IsSoundIssuer s.active_root generation (lookup slug p.issuers) i
  issuer_of slug i e =
      subst
        (λ o.
          IsSoundIssuer s.active_root (if is_root o then pending_generation o else s.active_root)
            (staged_version o slug) i)
        is (sound.issuers slug i e)

  pub retired_of :
      (h : ℕ) (q : RootRecord)
      → lookup h s.roots ≡ some q
      → (h == s.active_root || (p.kind == lit "root" && h == p.root_generation)) ≡ false
      → q.encrypted_key_der ≡ []
  retired_of h q e free =
      sound.retired_roots h q e (unfold root_needs_key in rw is (unfold root_needs_key in free))

-- the issuers behind the loop, where each staged version became active
pub issuers_promoted :
    (active g : ℕ) (issuers done : Map Bytes IssuerRecord) (ps : Map Bytes ℕ)
    → UniqueKeys ps
    → for_pending promote_issuer ps issuers ≡ ok done
    → ((slug : Bytes) (i : IssuerRecord)
        → lookup slug issuers ≡ some i
        → IsSoundIssuer active g (lookup slug ps) i)
    → ((slug : Bytes) (i : IssuerRecord)
        → lookup slug issuers ≡ some i
        → lookup slug ps ≡ none
        → active ≡ g)
    → (slug : Bytes) (i : IssuerRecord) → lookup slug done ≡ some i
    → IsSoundIssuer g g none i
issuers_promoted active g issuers done ps unique ran sound rest slug i e =
    go (lookup slug ps) (lookup slug issuers) refl refl
      (sym (lookup-for_pending promote_issuer ps issuers done unique ran slug) ∙ e)
  where
    go :
        (o : Option ℕ) (was : Option IssuerRecord)
        → lookup slug ps ≡ o
        → lookup slug issuers ≡ was
        → changed promote_issuer o was ≡ some i
        → IsSoundIssuer g g none i
    go none none a b c = absurd (ground arith)
    go none (some j) a b c =
        let old : IsSoundIssuer active g none j =
          subst (λ o. IsSoundIssuer active g o j) a (sound slug j b) in
        let same : j ≡ i = ground arith in
        subst (λ t. IsSoundIssuer g g none t) same
          (subst (λ t. IsSoundIssuer t g none j) (rest slug j b a) old)
    go (some n) none a b c = absurd (ground arith)
    go (some n) (some j) a b c =
        let old : IsSoundIssuer active g (some n) j =
          subst (λ o. IsSoundIssuer active g o j) a (sound slug j b) in
        let same : promote_issuer n j ≡ i = ground arith in
        subst (λ t. IsSoundIssuer g g none t) same (IsSoundIssuer-promote active g j n g old)

-- the same where each staged version was deleted
pub issuers_discarded :
    (active g : ℕ) (issuers done : Map Bytes IssuerRecord) (ps : Map Bytes ℕ)
    → UniqueKeys ps
    → for_pending discard_version ps issuers ≡ ok done
    → ((slug : Bytes) (i : IssuerRecord)
        → lookup slug issuers ≡ some i
        → IsSoundIssuer active g (lookup slug ps) i)
    → (slug : Bytes) (i : IssuerRecord) → lookup slug done ≡ some i
    → IsSoundIssuer active active none i
issuers_discarded active g issuers done ps unique ran sound slug i e =
    go (lookup slug ps) (lookup slug issuers) refl refl
      (sym (lookup-for_pending discard_version ps issuers done unique ran slug) ∙ e)
  where
    go :
        (o : Option ℕ) (was : Option IssuerRecord)
        → lookup slug ps ≡ o
        → lookup slug issuers ≡ was
        → changed discard_version o was ≡ some i
        → IsSoundIssuer active active none i
    go none none a b c = absurd (ground arith)
    go none (some j) a b c =
        let old : IsSoundIssuer active g none j =
          subst (λ o. IsSoundIssuer active g o j) a (sound slug j b) in
        let same : j ≡ i = ground arith in
        subst (λ t. IsSoundIssuer active active none t) same
          (IsSoundIssuer-keep active g j active old)
    go (some n) none a b c = absurd (ground arith)
    go (some n) (some j) a b c =
        let old : IsSoundIssuer active g (some n) j =
          subst (λ o. IsSoundIssuer active g o j) a (sound slug j b) in
        let same : discard_version n j ≡ i = ground arith in
        subst (λ t. IsSoundIssuer active active none t) same
          (IsSoundIssuer-discard active g j n active old)
