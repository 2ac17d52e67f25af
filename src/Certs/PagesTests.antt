-- ===== src/Certs/PagesTests.antt =====
-- Runs of the pages of a ledger.
use compage_go.Base.{ℕ, ◌≡◌, refl, false, [], ◌∷◌, lit, nat_comparable, list_comparable, arith}
use compage_go.Go.Strconv.{pos, show_digits, itoa, atoi_value, read_unsigned, read_digits}
use compage_go.Certs.Errors.{ok, err, panicked}
use compage_go.Certs.Names.{no_identity}
use compage_go.Certs.Sans.{no_sans}
use compage_go.Certs.Store.{Store, LedgerRecord, refused, read_ledger}
use compage_go.Certs.Ledger.{page_size, overflows, list_ledger}
use compage_go.Certs.Issuing.{IssuerManager, list_certificates}
use compage_go.Certs.Issuing.Pages.{all_pages, all_pages_complete}
use compage_go.Certs.RequestTests.{issuer_cert}
use compage_go.Certs.Toy.{toy, empty_store, web}

abbrev entry : ℕ → LedgerRecord
entry n = record {
  authority_revision = 1;
  fingerprint = n ∷ [];
  issuer = lit "web-one";
  issuer_version = 1;
  serial = n ∷ [];
  certificate_der = n ∷ [];
  subject = no_identity;
  sans = no_sans;
  profile = lit "tls-client";
  issued_at = 1;
  expires_at = 2;
}

abbrev full_store : Store
full_store = record empty_store { ledger = entry 1 ∷ entry 2 ∷ entry 3 ∷ [] }

abbrev pager : IssuerManager toy
pager = record {
  name = lit "Web One";
  slug_name = lit "web-one";
  revision = 1;
  definition = web;
  version = record {
    version = 1;
    root_generation = 1;
    certificate_der = [];
    key_der = [];
    fingerprint = [];
  };
  issuer_cert = issuer_cert;
  root_cert = issuer_cert;
  signer = 1;
  mode = lit "ledger";
  closed = false;
}

-- two pages; a cursor that is no number is taken for the first page, and a limit that is too large
-- overflows
pages :
    (list_certificates pager [] (pos 2) full_store ≡ ok (entry 1 ∷ entry 2 ∷ [], lit "2"))
    × (list_certificates pager (lit "2") (pos 2) full_store ≡ ok (entry 3 ∷ [], []))
    × (list_certificates pager (lit "zwei") (pos 2) full_store
        ≡ ok (entry 1 ∷ entry 2 ∷ [], lit "2"))
    × (list_certificates pager (lit "1") (pos 9223372036854775807) full_store ≡ err panicked)
unfolding list_certificates list_ledger read_ledger refused overflows page_size lit itoa show_digits
    atoi_value read_unsigned read_digits
pages = (refl, refl, refl, refl)

all_pages_complete_example :
    all_pages pager (pos 2) full_store 4 [] ≡ ok (entry 1 ∷ entry 2 ∷ entry 3 ∷ [])
unfolding page_size
all_pages_complete_example = all_pages_complete pager (pos 2) full_store refl refl (omega arith)
