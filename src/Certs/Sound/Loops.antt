-- ===== src/Certs/Sound/Loops.antt =====
-- The loops over issuers of certs/authority.go and certs/authority_operations.go.
use compage_go.Base.{
  ℕ, ◌≡◌, ◌≢◌, ◌⊎◌, true, Option, none, some, List, [], ◌∷◌, ◌==◌, nat_comparable, list_comparable,
  list_same_iff, Bytes, arith, inl, inr, Option-cases, if◌then◌else◌, subst,
}
use compage_go.Base.Members.{contains}
use compage_go.Go.Map.{Map, lookup, put, UniqueKeys, lookup-put_self, lookup-put_other, key-cases}
use compage_go.Certs.Errors.{ok}
use compage_go.Certs.Crypto.{Crypto}
use compage_go.Certs.State.{IssuerRecord}
use compage_go.Certs.Authority.{keys_of}
use compage_go.Certs.Authority.Promote.{for_pending}
use compage_go.Certs.Sound.{IsSoundIssuer}

-- what the loop over what is pending makes of an issuer
abbrev pub changed :
    (ℕ → IssuerRecord → IssuerRecord) → Option ℕ → Option IssuerRecord → Option IssuerRecord
changed f none o = o
changed f (some v) none = none
changed f (some v) (some i) = some (f v i)

pub lookup-for_pending :
    (f : ℕ → IssuerRecord → IssuerRecord) (ps : Map Bytes ℕ) (issuers done : Map Bytes IssuerRecord)
    → UniqueKeys ps
    → for_pending f ps issuers ≡ ok done
    → (slug : Bytes) → lookup slug done ≡ changed f (lookup slug ps) (lookup slug issuers)
unfolding for_pending lookup
lookup-for_pending f [] issuers done u h slug = ground arith
lookup-for_pending f ((k, v) ∷ ps) issuers done u h slug = elim (Option-cases (lookup k issuers)) [
  | inl e ↦ absurd (ground arith)
  | inr (i, e) ↦
      let h' : for_pending f ps (put k (f v i) issuers) ≡ ok done = ground arith in
      let ih = lookup-for_pending f ps (put k (f v i) issuers) done u.1 h' slug in
      elim (key-cases k slug) [ inl p ↦ here i e p ih | inr p ↦ there i p ih ]
]
  where
    here :
        (i : IssuerRecord)
        → lookup k issuers ≡ some i
        → k ≡ slug
        → lookup slug done ≡ changed f (lookup slug ps) (lookup slug (put k (f v i) issuers))
        → lookup slug done
          ≡ changed f (if k == slug then some v else lookup slug ps) (lookup slug issuers)
    here i e p ih =
        let none_left : lookup slug ps ≡ none = subst (λ j. lookup j ps ≡ none) p u.0 in
        let there : lookup slug issuers ≡ some i = subst (λ j. lookup j issuers ≡ some i) p e in
        let new : lookup slug (put k (f v i) issuers) ≡ some (f v i) =
          subst (λ j. lookup j (put k (f v i) issuers) ≡ some (f v i)) p
            (lookup-put_self k (f v i) issuers) in
        ground (arith, list_same_iff k slug)

    there :
        (i : IssuerRecord)
        → k ≢ slug
        → lookup slug done ≡ changed f (lookup slug ps) (lookup slug (put k (f v i) issuers))
        → lookup slug done
          ≡ changed f (if k == slug then some v else lookup slug ps) (lookup slug issuers)
    there i p ih =
        let old = lookup-put_other k slug (f v i) issuers p in ground (arith, list_same_iff k slug)

-- the slug of an issuer is among those that the loops go over
pub contains-keys_of :
    (x : Crypto) (issuers : Map Bytes IssuerRecord) (slug : Bytes) (i : IssuerRecord)
    → lookup slug issuers ≡ some i
    → contains (keys_of x issuers) slug ≡ true
unfolding lookup
contains-keys_of x [] slug i h = absurd (ground arith)
contains-keys_of x ((k, j) ∷ issuers) slug i h =
    ground (arith, list_same_iff k slug, contains-keys_of x issuers slug i)

-- What the loops that stage versions keep: every issuer is sound with what is pending for it.
abbrev pub AllSound : ℕ → ℕ → Map Bytes IssuerRecord → Map Bytes ℕ → Type 0
AllSound active g issuers pending =
    (slug : Bytes) (i : IssuerRecord)
    → lookup slug issuers ≡ some i
    → IsSoundIssuer active g (lookup slug pending) i

-- ... and every issuer is pending or among the slugs to come
abbrev pub AllCovered : List Bytes → Map Bytes IssuerRecord → Map Bytes ℕ → Type 0
AllCovered slugs issuers pending =
    (slug : Bytes) (i : IssuerRecord)
    → lookup slug issuers ≡ some i
    → ((n : ℕ) × (lookup slug pending ≡ some n)) ⊎ (contains slugs slug ≡ true)
