-- ===== src/Certs/Sans/Unique.antt =====
-- The loops that normalize the entries of `SANs`.
use compage_go.Base.{
  ◌≡◌, refl, false, List, [], ◌∷◌, nat_comparable, list_comparable, Bytes, arith, inl, inr,
  Bool-cases, subst, ◌++◌,
}
use compage_go.Base.Members.{contains}
use compage_go.Certs.Errors.{Result, ok, Result-cases}
use compage_go.Go.Unicode.{to_lower}
use compage_go.Certs.Sans.{
  Sans, Url, Net, without_repeats, itself, somes, normalize_dns, normalize_ip, normalize_uri,
  normalize_email, normalize_sans_allow_duplicates, merge_sans,
}

module _ {A B : Type 0} (normalize : A → Result B) (key : B → Bytes) where
  -- no key stands twice, and none was seen before
  abbrev pub AllNew : List Bytes → List B → Type 0
  AllNew seen [] = Unit
  AllNew seen (b ∷ bs) = (contains seen (key b) ≡ false) × AllNew (key b ∷ seen) bs

  -- What the loop that passes over repeated entries returns has no key twice.
  pub without_repeats-AllNew :
      (seen : List Bytes) (entries : List A) (bs : List B)
      → without_repeats normalize key seen entries ≡ ok bs
      → AllNew seen bs
  unfolding without_repeats
  without_repeats-AllNew seen [] bs h = ground arith
  without_repeats-AllNew seen (a ∷ entries) bs h = elim (Result-cases (normalize a)) [
    | inr (e, q) ↦ absurd (ground arith)
    | inl (b, q) ↦ elim (Bool-cases (contains seen (key b))) [
      | inl again ↦ without_repeats-AllNew seen entries bs (ground arith)
      | inr new ↦ elim (Result-cases (without_repeats normalize key (key b ∷ seen) entries)) [
        | inr (e, r) ↦ absurd (ground arith)
        | inl (rest, r) ↦
            let ih = without_repeats-AllNew (key b ∷ seen) entries rest r in
            let same : b ∷ rest ≡ bs = ground arith in subst (AllNew seen) same (new, ih)
      ]
    ]
  ]

-- no text, address or URI stands twice in them
pub record AllDifferent (net : Net) (s : Sans) : Type 0 where
  pub dns : AllNew normalize_dns itself [] s.dns_names
  pub ips :
      (ips : List Bytes) × (s.ip_addresses ≡ somes ips) × AllNew normalize_ip net.ip_text [] ips
  pub urls : (urls : List Url) × (s.uris ≡ somes urls) × AllNew normalize_uri (λ u. u.text) [] urls
  pub emails : AllNew normalize_email to_lower [] s.email_addresses

-- The SANs that mergeSANs returns are without repetition: no DNS name, no URI, no text of an address
-- and no e-mail address in lower case stands twice, though both of its arguments may have it.
pub merge_sans-AllDifferent :
    (net : Net) (a b r : Sans) → merge_sans net a b ≡ ok r → AllDifferent net r
unfolding merge_sans normalize_sans_allow_duplicates
merge_sans-AllDifferent net a b r h =
    elim (Result-cases (without_repeats normalize_dns itself [] (a.dns_names ++ b.dns_names))) [
      | inr (e, q) ↦ absurd (ground arith)
      | inl (dns, q) ↦
          elim (Result-cases
            (without_repeats normalize_ip net.ip_text [] (a.ip_addresses ++ b.ip_addresses))) [
              | inr (e, t) ↦ absurd (ground arith)
              | inl (ips, t) ↦
                  elim (Result-cases
                    (without_repeats normalize_uri (λ u. u.text) [] (a.uris ++ b.uris))) [
                      | inr (e, w) ↦ absurd (ground arith)
                      | inl (urls, w) ↦
                          elim (Result-cases (
                            without_repeats normalize_email to_lower []
                              (a.email_addresses ++ b.email_addresses))) [
                                | inr (e, z) ↦ absurd (ground arith)
                                | inl (emails, z) ↦
                                    let same : record {
                                      dns_names = dns;
                                      ip_addresses = somes ips;
                                      uris = somes urls;
                                      email_addresses = emails;
                                    }
                                        ≡ r =
                                      ground arith in
                                    subst (AllDifferent net) same (record {
                                      dns = without_repeats-AllNew normalize_dns itself [] _ dns q;
                                      ips = (
                                        ips,
                                        refl,
                                        without_repeats-AllNew normalize_ip net.ip_text [] _ ips t,
                                      );
                                      urls = (
                                        urls,
                                        refl,
                                        without_repeats-AllNew normalize_uri (λ u. u.text) [] _ urls
                                            w,
                                      );
                                      emails =
                                          without_repeats-AllNew normalize_email to_lower [] _
                                            emails z;
                                    })
                              ]
                    ]
            ]
    ]
