-- ===== src/Certs/Issuing/Pages.antt =====
-- The pages of `ListCertificates`, one after the other.
use compage_go.Base.{
  ℕ, zero, suc, ◌+◌, ◌-◌, ◌%◌, ◌^◌, ◌<◌, ◌≤◌, ◌++◌, ◌≡◌, refl, sym, ap, ◌∙◌, false, none, List, [],
  ◌∷◌, leb, ltb, ◌==◌, nat_comparable, list_comparable, if◌then◌else◌, Bytes, lit, arith, inl, inr,
  Bool-cases, length, take, drop, take-append-drop, append-nil, same_refl,
}
use compage_go.Go.Strconv.{ℤ, pos, negsuc, atoi_value, itoa}
use compage_go.Go.Strconv.Digits.{atoi_value-itoa, itoa_nonempty}
use compage_go.Certs.Errors.{Result, ok, err, ◌>>=◌, panicked}
use compage_go.Certs.Crypto.{Crypto}
use compage_go.Certs.Store.{Store, LedgerRecord, refused, read_ledger}
use compage_go.Certs.Ledger.{page_size, overflows, list_ledger}
use compage_go.Certs.Issuing.{IssuerManager, list_certificates}

drop_nothing {ℓ} : {A : Type ℓ} → (n : ℕ) → drop {A = A} n [] ≡ []
drop_nothing zero = refl
drop_nothing (suc n) = refl

drop-drop {ℓ} : {A : Type ℓ} → (n m : ℕ) (xs : List A) → drop n (drop m xs) ≡ drop (m + n) xs
drop-drop n zero xs = ap (λ k. drop k xs) (omega arith)
drop-drop n (suc m) [] = drop_nothing n ∙ sym (drop_nothing (suc m + n))
drop-drop n (suc m) (x ∷ xs) =
    let e : suc (m + n) ≡ suc m + n = omega arith in drop-drop n m xs ∙ ap (λ k. drop k (x ∷ xs)) e

drop_all {ℓ} : {A : Type ℓ} → (n : ℕ) (xs : List A) → length xs ≤ n → drop n xs ≡ []
drop_all n [] h = drop_nothing n
drop_all zero (x ∷ xs) h = absurd (omega arith)
drop_all (suc n) (x ∷ xs) h = drop_all n xs (omega arith)

page_size-positive : (limit : ℤ) → 0 < page_size limit
unfolding page_size
page_size-positive (pos zero) = omega arith
page_size-positive (pos (suc n)) = omega arith
page_size-positive (negsuc n) = omega arith

abbrev pub start_of : Bytes → ℤ
start_of cursor = if cursor == [] then pos 0 else atoi_value cursor

module _ {x : Crypto} (m : IssuerManager x) (limit : ℤ) (st : Store) where
  -- A client that asks for `fuel` pages at most, each by the cursor that came with the one before, and
  -- fails if there is another.
  unfoldable pub all_pages : ℕ → Bytes → Result (List LedgerRecord)
  all_pages zero cursor = err panicked
  all_pages (suc fuel) cursor = list_certificates m cursor limit st >>= λ (page, next).
      let rest = all_pages fuel next in
      if next == [] then ok page else (rest >>= λ r. ok (page ++ r))

  -- the page from `start` on
  list_certificates-page :
      (cursor : Bytes) (start : ℕ)
      → m.mode ≡ lit "ledger"
      → st.ledger_refusal ≡ none
      → start_of cursor ≡ pos start
      → start ≤ length st.ledger
      → start + page_size limit < 2 ^ 63
      → list_certificates m cursor limit st
        ≡ ok (
            if ltb (length st.ledger) (start + page_size limit)
            then (drop start st.ledger, [])
            else (
              take (start + page_size limit - start) (drop start st.ledger),
              if ltb (start + page_size limit) (length st.ledger)
                  then itoa (pos (start + page_size limit))
                  else [],
            ))
  unfolding list_certificates list_ledger read_ledger refused overflows
  list_certificates-page cursor start mode calm at within small =
      let fits : ltb (length st.ledger) start ≡ false = ground arith in
      let no_wrap : leb (2 ^ 63) ((start + page_size limit) % 2 ^ 64) ≡ false = ground arith in
      simp (mode, calm, at, fits, no_wrap, same_refl (lit "ledger")) refl

  pages_from :
      (fuel start : ℕ) (cursor : Bytes)
      → m.mode ≡ lit "ledger"
      → st.ledger_refusal ≡ none
      → page_size limit + length st.ledger < 2 ^ 63
      → start_of cursor ≡ pos start
      → start ≤ length st.ledger
      → length st.ledger < start + fuel
      → all_pages fuel cursor ≡ ok (drop start st.ledger)
  unfolding all_pages
  pages_from zero start cursor mode calm small at within enough = absurd (omega arith)
  pages_from (suc fuel) start cursor mode calm small at within enough =
      let v = st.ledger in
      let size = page_size limit in
      let page = list_certificates-page cursor start mode calm at within (omega arith) in
      let positive = page_size-positive limit in
      elim (Bool-cases (ltb (length v) (start + size))) [
        | inl e ↦ simp (page, e) refl
        | inr e ↦
            let whole : take (start + size - start) (drop start v) ++ drop (start + size) v
                ≡ drop start v =
              ap (λ k. take (start + size - start) (drop start v) ++ k)
                (ap (λ k. drop k v) (omega arith) ∙ sym (drop-drop (start + size - start) start v))
              ∙ take-append-drop (start + size - start) (drop start v) in
            elim (Bool-cases (ltb (start + size) (length v))) [
              | inl f ↦
                  let next : start_of (itoa (pos (start + size))) ≡ pos (start + size) =
                    simp (itoa_nonempty (start + size))
                      (atoi_value-itoa (start + size) (omega arith)) in
                  let rest =
                    pages_from fuel (start + size) (itoa (pos (start + size))) mode calm small next
                      (ground arith) (omega arith) in
                  simp (page, e, f, itoa_nonempty (start + size), rest, whole) refl
              | inr f ↦
                  let last : take (start + size - start) (drop start v) ≡ drop start v =
                    sym (append-nil (take (start + size - start) (drop start v)))
                    ∙ ap (λ r. take (start + size - start) (drop start v) ++ r)
                        (sym (drop_all (start + size) v (ground arith)))
                    ∙ whole in
                  simp (page, e, f, last) refl
            ]
      ]

  -- Following the cursors of `ListCertificates` from the empty one on, one gets every record of the
  -- ledger, once and in its order, in at most as many pages as there are records, and one: with a
  -- ledger that can be read, whatever the limit is, as long as it and the number of records make less
  -- than 2^63 together.
  pub all_pages_complete :
      m.mode ≡ lit "ledger"
      → st.ledger_refusal ≡ none
      → page_size limit + length st.ledger < 2 ^ 63
      → all_pages (length st.ledger + 1) [] ≡ ok st.ledger
  all_pages_complete mode calm small =
      pages_from (length st.ledger + 1) 0 [] mode calm small refl (omega arith) (omega arith)
