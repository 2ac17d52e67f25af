-- ===== src/Certs/Trust/Bundle.antt =====
-- Which certificates `buildTrustBundle` puts into a bundle.
use compage_go.Base.{
  ℕ, ◌<◌, ◌≡◌, ◌⊎◌, ◌↔◌, inl, inr, refl, true, false, Option, none, some, List, [], ◌∷◌, ◌==◌,
  nat_comparable, nat_beq_iff, list_comparable, Bytes, ltb, arith, Bool-cases, subst,
}
use compage_go.Go.Map.{Map}
use compage_go.Certs.Errors.{ok, Result-cases, >>-eq-ok}
use compage_go.Certs.Crypto.{Cert, Crypto, parse_cert_der}
use compage_go.Certs.State.{RootRecord, PendingManifest, State}
use compage_go.Certs.Trust.{
  is_untrusted, trusted_certificates, check_trusted, before, insert_sorted, sort_certificates,
  new_trust_bundle, build_trust_bundle,
}

-- a certificate of the list has this DER
abbrev pub InBundle : Bytes → List (Bytes × Cert) → Type 0
InBundle der [] = ⊥
InBundle der (c ∷ rest) = (c.0 ≡ der) ⊎ InBundle der rest

abbrev pub Pending : Option PendingManifest → ℕ → Type 0
Pending none g = ⊥
Pending (some p) g = g ≡ p.root_generation

-- What a root is trusted for: it is active, it is pending, or its time has not run out.
abbrev pub Trusted : State → ℕ → ℕ → RootRecord → Type 0
Trusted s now g r = (g ≡ s.active_root) ⊎ (Pending s.pending g ⊎ (now < r.retired_trust_until))

-- a trusted root of the map has this DER
abbrev pub TrustedIn : State → ℕ → Bytes → Map ℕ RootRecord → Type 0
TrustedIn s now der [] = ⊥
TrustedIn s now der ((g, r) ∷ rest) =
    (Trusted s now g r × (r.certificate_der ≡ der)) ⊎ TrustedIn s now der rest

module _ (s : State) (now g : ℕ) (r : RootRecord) where
  Trusted-is_untrusted : is_untrusted s now g r ≡ false → Trusted s now g r
  unfolding is_untrusted
  Trusted-is_untrusted h = elim (Bool-cases (g == s.active_root)) [
    | inl e ↦ inl ((nat_beq_iff g s.active_root).0 e)
    | inr e ↦ elim (Bool-cases (ltb now r.retired_trust_until)) [
      | inl f ↦ inr (inr (ground arith))
      | inr f ↦ inr (inl (pending s.pending refl e f))
    ]
  ]
    where
      pending :
          (o : Option PendingManifest)
          → s.pending ≡ o
          → (g == s.active_root) ≡ false
          → ltb now r.retired_trust_until ≡ false
          → Pending o g
      pending none q e f = absurd (ground arith)
      pending (some p) q e f = ground (arith, nat_beq_iff g p.root_generation)

  is_untrusted-Trusted : Trusted s now g r → is_untrusted s now g r ≡ false
  unfolding is_untrusted
  is_untrusted-Trusted (inl e) = ground (arith, nat_beq_iff g s.active_root)
  is_untrusted-Trusted (inr (inl e)) = pending s.pending refl e
    where
      pending :
          (o : Option PendingManifest)
          → s.pending ≡ o
          → Pending o g
          → is_untrusted s now g r ≡ false
      pending none q e = absurd e
      pending (some p) q e = ground (arith, nat_beq_iff g p.root_generation)
  is_untrusted-Trusted (inr (inr e)) = ground arith

module _ (x : Crypto) where
  trusted_certificates-In :
      (s : State) (now : ℕ) (roots : Map ℕ RootRecord) (certs : List (Bytes × Cert)) (der : Bytes)
      → trusted_certificates x s now roots ≡ ok certs
      → InBundle der certs ↔ TrustedIn s now der roots
  unfolding trusted_certificates
  trusted_certificates-In s now [] certs der h =
      let same : [] ≡ certs = ground arith in
      subst (λ t. InBundle der t ↔ ⊥) same ((λ a. a), (λ a. a))
  trusted_certificates-In s now ((g, r) ∷ rest) certs der h =
      elim (Bool-cases (is_untrusted s now g r)) [
        | inl off ↦
            let ih = trusted_certificates-In s now rest certs der (ground arith) in
            ((λ a. inr (ih.0 a)), back off ih.1)
        | inr on ↦ elim (Result-cases (parse_cert_der x r.certificate_der)) [
          | inr (e, q) ↦ absurd (ground arith)
          | inl (cert, q) ↦ elim (Result-cases (trusted_certificates x s now rest)) [
            | inr (e, w) ↦ absurd (ground arith)
            | inl (others, w) ↦
                let ih = trusted_certificates-In s now rest others der w in
                let same : (r.certificate_der, cert) ∷ others ≡ certs = ground arith in
                subst (λ t. InBundle der t ↔ TrustedIn s now der ((g, r) ∷ rest)) same
                  (both on others cert ih)
          ]
        ]
      ]
    where
      back :
          is_untrusted s now g r ≡ true
          → (TrustedIn s now der rest → InBundle der certs)
          → TrustedIn s now der ((g, r) ∷ rest)
          → InBundle der certs
      back off f (inl (t, _)) = let c = is_untrusted-Trusted s now g r t in absurd (ground arith)
      back off f (inr t) = f t

      both :
          is_untrusted s now g r ≡ false
          → (others : List (Bytes × Cert)) (cert : Cert)
          → InBundle der others ↔ TrustedIn s now der rest
          → InBundle der ((r.certificate_der, cert) ∷ others) ↔ TrustedIn s now der ((g, r) ∷ rest)
      both on others cert ih = (forth, back_to)
        where
          forth :
              InBundle der ((r.certificate_der, cert) ∷ others)
              → TrustedIn s now der ((g, r) ∷ rest)
          forth (inl e) = inl (Trusted-is_untrusted s now g r on, e)
          forth (inr i) = inr (ih.0 i)

          back_to :
              TrustedIn s now der ((g, r) ∷ rest)
              → InBundle der ((r.certificate_der, cert) ∷ others)
          back_to (inl (t, e)) = inl e
          back_to (inr i) = inr (ih.1 i)

  InBundle-insert :
      (c : Bytes × Cert) (certs : List (Bytes × Cert)) (der : Bytes)
      → InBundle der (insert_sorted x c certs) ↔ InBundle der (c ∷ certs)
  unfolding insert_sorted
  InBundle-insert c [] der = ((λ a. a), (λ a. a))
  InBundle-insert c (d ∷ rest) der = elim (Bool-cases (before x d.0 c.0)) [
    | inr e ↦ rw e ((λ a. a), (λ a. a))
    | inl e ↦ rw e (forth (InBundle-insert c rest der).0, back (InBundle-insert c rest der).1)
  ]
    where
      forth :
          (InBundle der (insert_sorted x c rest) → InBundle der (c ∷ rest))
          → InBundle der (d ∷ insert_sorted x c rest)
          → InBundle der (c ∷ d ∷ rest)
      forth f (inl a) = inr (inl a)
      forth f (inr a) = swap (f a)
        where
          swap : InBundle der (c ∷ rest) → InBundle der (c ∷ d ∷ rest)
          swap (inl b) = inl b
          swap (inr b) = inr (inr b)

      back :
          (InBundle der (c ∷ rest) → InBundle der (insert_sorted x c rest))
          → InBundle der (c ∷ d ∷ rest)
          → InBundle der (d ∷ insert_sorted x c rest)
      back f (inl a) = inr (f (inl a))
      back f (inr (inl a)) = inl a
      back f (inr (inr a)) = inr (f (inr a))

  InBundle-sort :
      (certs : List (Bytes × Cert)) (der : Bytes)
      → InBundle der (sort_certificates x certs) ↔ InBundle der certs
  unfolding sort_certificates
  InBundle-sort [] der = ((λ a. a), (λ a. a))
  InBundle-sort (c ∷ rest) der =
      let (f, g) = InBundle-insert c (sort_certificates x rest) der in
      let ih = InBundle-sort rest der in (forth f ih.0, back g ih.1)
    where
      forth :
          (InBundle der (insert_sorted x c (sort_certificates x rest))
            → InBundle der (c ∷ sort_certificates x rest))
          → (InBundle der (sort_certificates x rest) → InBundle der rest)
          → InBundle der (insert_sorted x c (sort_certificates x rest))
          → InBundle der (c ∷ rest)
      forth f k a = go (f a)
        where
          go : InBundle der (c ∷ sort_certificates x rest) → InBundle der (c ∷ rest)
          go (inl b) = inl b
          go (inr b) = inr (k b)

      back :
          (InBundle der (c ∷ sort_certificates x rest)
            → InBundle der (insert_sorted x c (sort_certificates x rest)))
          → (InBundle der rest → InBundle der (sort_certificates x rest))
          → InBundle der (c ∷ rest)
          → InBundle der (insert_sorted x c (sort_certificates x rest))
      back g k (inl b) = g (inl b)
      back g k (inr b) = g (inr (k b))

  -- A trust bundle that is built has exactly the certificates of the trusted roots: the active one, a
  -- pending one, and those whose time of trust has not run out.
  pub build_trust_bundle-Trusted :
      (s : State) (now : ℕ) (bundle : List (Bytes × Cert)) (der : Bytes)
      → build_trust_bundle x s now ≡ ok bundle
      → InBundle der bundle ↔ TrustedIn s now der s.roots
  unfolding build_trust_bundle
  build_trust_bundle-Trusted s now bundle der h =
      elim (Result-cases (trusted_certificates x s now s.roots)) [
        | inr (e, q) ↦ absurd (ground arith)
        | inl (certs, q) ↦
            let same = sorted certs (ground arith) in
            let member = trusted_certificates-In s now s.roots certs der q in
            let (f, g) = InBundle-sort certs der in
            subst (λ t. InBundle der t ↔ TrustedIn s now der s.roots) same
              ((λ a. member.0 (f a)), (λ a. g (member.1 a)))
      ]
    where
      sorted :
          (certs : List (Bytes × Cert))
          → new_trust_bundle x certs ≡ ok bundle
          → sort_certificates x certs ≡ bundle
      sorted [] e = unfold new_trust_bundle in absurd (ground arith)
      sorted (c ∷ rest) e =
          unfold new_trust_bundle in
          (let (_, t) = >>-eq-ok (check_trusted x [] (c ∷ rest)) _ e in ground arith)
