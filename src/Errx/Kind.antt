-- ===== src/Errx/Kind.antt =====
-- errx/kind.go: the semantic kinds. A Go `Kind` is a uint8, so values above `Internal` exist.
use compage_go.Base.{ℕ, Bool, ◌&&◌, not, leb, ◌==◌, nat_comparable, if◌then◌else◌, Bytes, lit}

abbrev pub Kind : Type 0
Kind = ℕ

abbrev pub unknown : Kind
unknown = 0

abbrev pub invalid : Kind
invalid = 1

abbrev pub validation : Kind
validation = 2

abbrev pub unauthenticated : Kind
unauthenticated = 3

abbrev pub forbidden : Kind
forbidden = 4

abbrev pub not_found : Kind
not_found = 5

abbrev pub conflict : Kind
conflict = 6

abbrev pub rate_limited : Kind
rate_limited = 7

abbrev pub unavailable : Kind
unavailable = 8

abbrev pub timeout : Kind
timeout = 9

abbrev pub internal : Kind
internal = 10

unfoldable pub valid : Kind → Bool
valid k = leb k internal

-- `Kind.String`
unfoldable pub kind_string : Kind → Bytes
kind_string k =
    if k == unknown
    then lit "unknown"
    else if k == invalid
    then lit "invalid"
    else if k == validation
    then lit "validation"
    else if k == unauthenticated
    then lit "unauthenticated"
    else if k == forbidden
    then lit "forbidden"
    else if k == not_found
    then lit "not_found"
    else if k == conflict
    then lit "conflict"
    else if k == rate_limited
    then lit "rate_limited"
    else if k == unavailable
    then lit "unavailable"
    else if k == timeout
    then lit "timeout"
    else if k == internal
    then lit "internal"
    else lit "unknown"

-- the guard of `KindOf` and `KindsOf`: a kind that classifies
unfoldable pub classifies : Kind → Bool
unfolding valid
classifies k = valid k && not (k == unknown)
