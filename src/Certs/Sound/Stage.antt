-- ===== src/Certs/Sound/Stage.antt =====
-- `prepareRoot` and `prepareIssuers`.
use compage_go.Base.{
  ℕ, ◌+◌, ◌≡◌, ◌≢◌, ◌⊎◌, sym, ap, ◌∙◌, true, Option, none, some, List, [], ◌∷◌, nat_comparable,
  list_comparable, list_same_iff, Bytes, arith, inl, inr, Option-cases, subst,
}
use compage_go.Base.Members.{contains}
use compage_go.Go.Map.{
  Map, lookup, put, UniqueKeys, UniqueKeys-put, lookup-put_self, lookup-put_other, key-cases,
}
use compage_go.Certs.Errors.{ok, Result-cases}
use compage_go.Certs.Crypto.{Crypto}
use compage_go.Certs.State.{AuthoritySpec, RootRecord, IssuerVersion, IssuerRecord}
use compage_go.Certs.Authority.{prepare_versions}
use compage_go.Certs.Making.{make_issuer}
use compage_go.Certs.Sound.{IsSoundIssuer}
use compage_go.Certs.Sound.Made.{KeysAreEncoded, make_issuer_lem}
use compage_go.Certs.Sound.Issuer.{IsSoundIssuer-stage}
use compage_go.Certs.Sound.Loops.{AllSound, AllCovered}

module _ (active g : ℕ) (issuers : Map Bytes IssuerRecord) (pending : Map Bytes ℕ) (k : Bytes)
    (i : IssuerRecord) (at : lookup k issuers ≡ some i) (v : IssuerVersion) where
  abbrev next : ℕ
  next = i.active_version + 1

  abbrev grown : Map Bytes IssuerRecord
  grown = put k (record i { versions = put next v i.versions }) issuers

  AllSound-step :
      AllSound active g issuers pending
      → v.root_generation ≡ g
      → v.key_der ≢ []
      → AllSound active g grown (put k next pending)
  AllSound-step s root key slug j e = elim (key-cases k slug) [
    | inl p ↦ here p e
    | inr p ↦ there p e
  ]
    where
      next_only :
          (o : Option ℕ)
          → IsSoundIssuer active g o i
          → (n : ℕ) → o ≡ some n
          → n ≡ i.active_version + 1
      next_only none t n q = absurd (ground arith)
      next_only (some m) t n q = let b = t.staged_key.1 in ground arith

      here :
          k ≡ slug
          → lookup slug grown ≡ some j
          → IsSoundIssuer active g (lookup slug (put k next pending)) j
      here p e =
          let new =
            IsSoundIssuer-stage active g i g (lookup k pending) v (s k i at)
              (next_only (lookup k pending) (s k i at)) root key in
          let j_is : record i { versions = put next v i.versions } ≡ j =
            some_injective _ _
              (sym (lookup-put_self k _ issuers) ∙ (ap (λ t. lookup t grown) p ∙ e)) in
          subst (λ t. IsSoundIssuer active g (lookup t (put k next pending)) j) p
            (rw (lookup-put_self k next pending)
              (subst (λ t. IsSoundIssuer active g (some next) t) j_is new))
        where
          some_injective : (a b : IssuerRecord) → some a ≡ some b → a ≡ b
          some_injective a b q = cc

      there :
          k ≢ slug
          → lookup slug grown ≡ some j
          → IsSoundIssuer active g (lookup slug (put k next pending)) j
      there p e =
          rw (lookup-put_other k slug next pending p)
            (s slug j (sym (lookup-put_other k slug _ issuers p) ∙ e))

  AllCovered-step :
      (slugs : List Bytes)
      → AllCovered (k ∷ slugs) issuers pending
      → AllCovered slugs grown (put k next pending)
  AllCovered-step slugs c slug j e = elim (key-cases k slug) [
    | inl p ↦ inl (
      next,
      subst (λ t. lookup t (put k next pending) ≡ some next) p (lookup-put_self k next pending),
    )
    | inr p ↦ other p (c slug j (sym (lookup-put_other k slug _ issuers p) ∙ e))
  ]
    where
      other :
          k ≢ slug
          → ((n : ℕ) × (lookup slug pending ≡ some n)) ⊎ (contains (k ∷ slugs) slug ≡ true)
          → ((n : ℕ) × (lookup slug (put k next pending) ≡ some n)) ⊎ (contains slugs slug ≡ true)
      other p (inl (n, q)) = inl (n, lookup-put_other k slug next pending p ∙ q)
      other p (inr q) = inr (ground (arith, list_same_iff k slug))

module _ (x : Crypto) (encoded : KeysAreEncoded x) (spec : AuthoritySpec) (active g : ℕ)
    (root : RootRecord) (key : x.Key) (now : ℕ) where
  -- What the loop returns: sound issuers, all of which are staged that were to be, and a map.
  pub prepare_versions_lem :
      (slugs : List Bytes) (draw : ℕ) (issuers : Map Bytes IssuerRecord) (pending : Map Bytes ℕ)
      (r : Map Bytes IssuerRecord × Map Bytes ℕ)
      → prepare_versions x spec g root key now draw slugs issuers pending ≡ ok r
      → AllSound active g issuers pending
      → UniqueKeys pending
      → AllSound active g r.0 r.1
        × UniqueKeys r.1
        × (AllCovered slugs issuers pending → AllCovered [] r.0 r.1)
  unfolding prepare_versions
  prepare_versions_lem [] draw issuers pending r h s u =
      let a : issuers ≡ r.0 = ground arith in
      let b : pending ≡ r.1 = ground arith in
      (
        subst (λ t. AllSound active g t r.1) a (subst (λ t. AllSound active g issuers t) b s),
        subst (λ t. UniqueKeys t) b u,
        λ c. subst (λ t. AllCovered [] t r.1) a (subst (λ t. AllCovered [] issuers t) b c),
      )
  prepare_versions_lem (k ∷ slugs) draw issuers pending r h s u =
      elim (Option-cases (lookup k issuers)) [
        | inl e ↦ absurd (ground arith)
        | inr (i, e) ↦
            elim (Result-cases
              (make_issuer x spec g (i.active_version + 1) i.definition root key now draw)) [
                | inl (v, m) ↦
                    let (under, held) =
                      make_issuer_lem x encoded spec g (i.active_version + 1) i.definition root key
                        now draw v m in
                    let rest : prepare_versions x spec g root key now (draw + 1) slugs
                          (grown active g issuers pending k i e v)
                          (put k (i.active_version + 1) pending)
                        ≡ ok r =
                      ground arith in
                    let ih =
                      prepare_versions_lem slugs (draw + 1) (grown active g issuers pending k i e v)
                        (put k (i.active_version + 1) pending) r rest
                        (AllSound-step active g issuers pending k i e v s under held)
                        (UniqueKeys-put k (i.active_version + 1) pending u) in
                    (
                      ih.0,
                      ih.1,
                      λ c. ih.2 (AllCovered-step active g issuers pending k i e v slugs c),
                    )
                | inr (f, m) ↦ absurd (ground arith)
              ]
      ]
