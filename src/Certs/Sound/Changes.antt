-- ===== src/Certs/Sound/Changes.antt =====
-- The changes that stage a rotation: `prepareRoot` and `prepareIssuers`.
use compage_go.Base.{
  ℕ, ◌+◌, ◌<◌, ◌≡◌, ◌≢◌, ◌⊎◌, refl, sym, ◌∙◌, true, false, ◌||◌, ◌&&◌, none, some, List, [], ◌==◌,
  nat_comparable, nat_beq_iff, list_comparable, same_refl, Bytes, lit, arith, inl, inr,
  Option-cases, subst, length,
}
use compage_go.Go.Map.{Map, lookup, put, UniqueKeys, lookup-put_self, lookup-put_other, key-cases}
use compage_go.Certs.Errors.{panicked, Result, ok, err, ◌>>=◌, Result-cases}
use compage_go.Certs.Crypto.{Crypto, or_error}
use compage_go.Certs.State.{RootRecord, IssuerRecord, State}
use compage_go.Certs.Store.{Store}
use compage_go.Certs.Validate.{root_needs_key}
use compage_go.Certs.Authority.{
  prepare_versions, prepare_root, prepare_issuers, keys_of, staged, free_generation,
}
use compage_go.Certs.Making.{make_root}
use compage_go.Certs.Manager.{Manager, active_root_signer}
use compage_go.Certs.Sound.{IsSoundIssuer, IsSound, staged_version, staged_generation}
use compage_go.Certs.Sound.Made.{KeysAreEncoded, make_root_lem}
use compage_go.Certs.Sound.Issuer.{IsSoundIssuer-keep}
use compage_go.Certs.Sound.Loops.{AllSound, AllCovered, contains-keys_of}
use compage_go.Certs.Sound.Stage.{prepare_versions_lem}
use compage_go.Certs.Sound.Free.{free_generation_new}

abbrev staged_state : Bytes → ℕ → ℕ → State → Map Bytes IssuerRecord × Map Bytes ℕ → State
staged_state kind g now s t = record s {
  issuers = t.0;
  pending = some (record {
    kind = kind;
    expected_revision = s.revision;
    root_generation = g;
    issuers = t.1;
    created_at = now;
  });
}

staged_lem :
    (x : Crypto) (kind : Bytes) (g now : ℕ) (s s' : State)
    (r : Result (Map Bytes IssuerRecord × Map Bytes ℕ))
    → staged x kind g now s r ≡ ok s'
    → (t : Map Bytes IssuerRecord × Map Bytes ℕ) × (r ≡ ok t) × (staged_state kind g now s t ≡ s')
unfolding staged
staged_lem x kind g now s s' (ok t) h = (t, refl, ground arith)
staged_lem x kind g now s s' (err e) h = absurd (ground arith)

-- nothing is pending: issuers have no version staged
AllSound-start :
    (s : State) (g : ℕ) → s.pending ≡ none → IsSound s → AllSound s.active_root g s.issuers []
unfolding lookup
AllSound-start s g none_pending sound slug i e =
    IsSoundIssuer-keep s.active_root (staged_generation s) i g (
      subst (λ o. IsSoundIssuer s.active_root (staged_generation s) (staged_version o slug) i)
        none_pending (sound.issuers slug i e))

module _ (x : Crypto) (encoded : KeysAreEncoded x) where
  root_staged :
      (s : State) (g now : ℕ) (root : RootRecord) (t : Map Bytes IssuerRecord × Map Bytes ℕ)
      → s.pending ≡ none
      → IsSound s
      → s.active_root < g
      → root.encrypted_key_der ≢ []
      → AllSound s.active_root g t.0 t.1
      → UniqueKeys t.1
      → AllCovered [] t.0 t.1
      → IsSound (staged_state (lit "root") g now (record s { roots = put g root s.roots }) t)
  unfolding root_needs_key
  root_staged s g now root t none_pending sound later key all unique covered =
      let ne : g ≢ s.active_root = ground arith in
      let (r, at, held) = sound.root_key in
      let is : (lit "root" == lit "root") ≡ true = same_refl (lit "root") in
      record {
        root_key = (r, lookup-put_other g s.active_root root s.roots ne ∙ at, held);
        retired_roots = λ h q e free. retired h q e free (key-cases g h);
        issuers = λ slug i e. rw is (all slug i e);
        pending = (
          unique,
          λ _. ((root, lookup-put_self g root s.roots, key), later, all_there),
          λ no_root. absurd (ground arith),
        );
      }
    where
      after : State
      after = staged_state (lit "root") g now (record s { roots = put g root s.roots }) t

      retired :
          (h : ℕ) (q : RootRecord)
          → lookup h (put g root s.roots) ≡ some q
          → (h == s.active_root || (lit "root" == lit "root" && h == g)) ≡ false
          → (g ≡ h) ⊎ (g ≢ h)
          → q.encrypted_key_der ≡ []
      retired h q e free (inl p) =
          let is : (lit "root" == lit "root") ≡ true = same_refl (lit "root") in
          absurd (ground (arith, nat_beq_iff h g))
      retired h q e free (inr p) =
          sound.retired_roots h q (sym (lookup-put_other g h root s.roots p) ∙ e)
            (unfold root_needs_key in rw none_pending (ground arith))

      all_there :
          (slug : Bytes) (i : IssuerRecord)
          → lookup slug t.0 ≡ some i
          → (n : ℕ) × (lookup slug t.1 ≡ some n)
      all_there slug i e = given (covered slug i e)
        where
          given :
              ((n : ℕ) × (lookup slug t.1 ≡ some n)) ⊎ (false ≡ true)
              → (n : ℕ) × (lookup slug t.1 ≡ some n)
          given (inl w) = w
          given (inr q) = absurd (ground arith)

  -- Where nothing is pending, prepareRoot leaves a sound state.
  pub prepare_root-IsSound :
      (now : ℕ) (s s' : State) (m : Manager)
      → s.pending ≡ none
      → IsSound s
      → (prepare_root x now s m).0 ≡ ok s'
      → IsSound s'
  unfolding prepare_root
  prepare_root-IsSound now s s' m none_pending sound h =
      let g = free_generation x (length s.roots) (s.active_root + 1) s.roots in
      elim (Result-cases (make_root x s.spec g now m.seed)) [
        | inr (e, q) ↦ absurd (ground arith)
        | inl (made, q) ↦
            let after = record s { roots = put g made.0 s.roots } in
            let loop =
              prepare_versions x s.spec g made.0 made.1 now (m.seed + 1) (keys_of x s.issuers)
                s.issuers [] in
            let (t, ran, is) = staged_lem x (lit "root") g now after s' loop (ground arith) in
            let ready =
              prepare_versions_lem x encoded s.spec s.active_root g made.0 made.1 now
                (keys_of x s.issuers) (m.seed + 1) s.issuers [] t ran
                (AllSound-start s g none_pending sound) tt in
            subst IsSound is (
              root_staged s g now made.0 t none_pending sound
                (free_generation_new x s.active_root s.roots).1
                (make_root_lem x encoded s.spec g now m.seed made q).1 ready.0 ready.1
                (ready.2 (λ slug i e. inr (contains-keys_of x s.issuers slug i e))))
      ]

  issuers_staged :
      (s : State) (now : ℕ) (t : Map Bytes IssuerRecord × Map Bytes ℕ)
      → s.pending ≡ none
      → IsSound s
      → (lit "issuer" == lit "root") ≡ false
      → AllSound s.active_root s.active_root t.0 t.1
      → UniqueKeys t.1
      → IsSound (staged_state (lit "issuer") 0 now s t)
  issuers_staged s now t none_pending sound no_root all unique = record {
    root_key = sound.root_key;
    retired_roots = λ h q e free.
        sound.retired_roots h q e
          (unfold root_needs_key in rw none_pending (unfold root_needs_key in ground arith));
    issuers = λ slug i e. rw no_root (all slug i e);
    pending = (unique, λ is. absurd (ground arith), λ _. refl);
  }

  -- Where nothing is pending, prepareIssuers leaves a sound state.
  pub prepare_issuers-IsSound :
      (st : Store) (due : List Bytes) (now : ℕ) (s s' : State) (m : Manager)
      → s.pending ≡ none
      → IsSound s
      → (prepare_issuers x st due now s m).0 ≡ ok s'
      → IsSound s'
  unfolding prepare_issuers lit
  prepare_issuers-IsSound st due now s s' m none_pending sound h =
      let signer = active_root_signer x m.config m.generated st s in
      let found = lookup s.active_root s.roots in
      let (t, ran, is) =
        staged_lem x (lit "issuer") 0 now s s'
          (signer >>= λ key. or_error found panicked >>= λ root.
            prepare_versions x s.spec s.active_root root key now m.seed due s.issuers [])
          h in
      elim (Result-cases signer) [
        | inr (e, q) ↦ absurd (ground arith)
        | inl (key, q) ↦ elim (Option-cases found) [
          | inl e ↦ absurd (ground arith)
          | inr (root, e) ↦
              let ready =
                prepare_versions_lem x encoded s.spec s.active_root s.active_root root key now due
                  m.seed s.issuers [] t (ground arith)
                  (AllSound-start s s.active_root none_pending sound) tt in
              subst IsSound is (issuers_staged s now t none_pending sound refl ready.0 ready.1)
        ]
      ]
