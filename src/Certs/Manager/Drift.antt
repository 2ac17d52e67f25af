-- ===== src/Certs/Manager/Drift.antt =====
-- How `assertSpec` compares a manager's identity with that of a stored authority.
use compage_go.Base.{
  ◌≡◌, ◌≢◌, refl, sym, ap, ◌∙◌, false, some, [], ◌∷◌, ◌++◌, nat_comparable, list_comparable,
  same_refl, append_assoc, Bytes, arith, length, length-append,
}
use compage_go.Go.Strconv.{int_comparable}
use compage_go.Go.Strings.{join}
use compage_go.Certs.Names.{Identity}
use compage_go.Certs.Manager.{print_identity, differs_identity}

abbrev left_of : Identity → Bytes → Bytes → Bytes → Identity
left_of v a b c = record v { organization = a ++ 32 ∷ b; organizational_unit = c }

abbrev right_of : Identity → Bytes → Bytes → Bytes → Identity
right_of v a b c = record v { organization = a; organizational_unit = b ++ 32 ∷ c }

print_same :
    (v : Identity) (a b c : Bytes)
    → print_identity (left_of v a b c) ≡ print_identity (right_of v a b c)
unfolding print_identity join
print_same v a b c =
    let rest = v.country ++ 32 ∷ (v.province ++ 32 ∷ (v.locality ++ 32 ∷ v.common_name)) in
    let e : (a ++ 32 ∷ b) ++ 32 ∷ (c ++ 32 ∷ rest) ≡ a ++ 32 ∷ ((b ++ 32 ∷ c) ++ 32 ∷ rest) =
      append_assoc a (32 ∷ b) (32 ∷ (c ++ 32 ∷ rest))
      ∙ ap (λ r. a ++ 32 ∷ r) (sym (append_assoc b (32 ∷ c) (32 ∷ rest))) in
    ap (λ r. b'{' ∷ (r ++ b'}' ∷ [])) e

-- The identity is compared by its print, which does not tell where a field ends: an organization `a b`
-- with the unit `c` passes for an organization `a` with the unit `b c`, which is another identity.
pub differs_identity-blind :
    (v : Identity) (a b c : Bytes)
    → (differs_identity
          (some (record v { organization = a ++ 32 ∷ b; organizational_unit = c }))
          (record v { organization = a; organizational_unit = b ++ 32 ∷ c })
        ≡ false)
      × (a ++ 32 ∷ b ≢ a)
unfolding differs_identity
differs_identity-blind v a b c = (
  rw (print_same v a b c) (rw (same_refl (print_identity (right_of v a b c))) refl),
  λ p. absurd (omega (arith, length-append a (32 ∷ b), ap length p)),
)
