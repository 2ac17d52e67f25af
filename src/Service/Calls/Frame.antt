-- ===== src/Service/Calls/Frame.antt =====
-- What each call leaves as it was.
use compage_go.Base.{
  ℕ, ◌≡◌, refl, false, Option, none, some, List, ◌==◌, nat_comparable, list_comparable,
  list_same_iff, Bytes, arith, Option-cases, same_refl, ◌∙◌, ◌⊎◌, Bool-cases, inl, inr, ap,
}
use compage_go.Go.Strconv.{ℤ}
use compage_go.Service.Errors.{IoError, Failure, Result, ok, err, Result-cases}
use compage_go.Service.Files.{Entry, Fs, directory, Info, info_of, M, refusable_rule}
use compage_go.Service.Calls.{
  lstat, at_target, mkdir, chown, chmod, update, new_owner, new_directory,
}

-- A directory that is no symbolic link stands at `p`.
abbrev pub IsRealDir : Fs → Bytes → Type 0
IsRealDir fs p = (e : Entry) × (fs.node p ≡ some e) × (e.type ≡ directory)

-- The list of refusals is all that may differ.
abbrev with_refusals : Fs → List (Option IoError) → Fs
with_refusals fs rest = record fs { refusals = rest }

module _ (p : Bytes) (fs : Fs) where
  pub node-lstat : (lstat p fs).1.node ≡ fs.node
  unfolding lstat
  node-lstat = refusable_rule (λ r. r.1.node ≡ fs.node) _ fs (λ rest. refl) (λ e rest. refl)

  pub lstat-eq-ok :
      (i : Option Info)
      → (lstat p fs).0 ≡ ok i
      → (e : Entry) × (fs.node p ≡ some e) × (i ≡ some (info_of e))
  unfolding lstat
  lstat-eq-ok i =
      refusable_rule (λ r. r.0 ≡ ok i → (e : Entry) × (fs.node p ≡ some e) × (i ≡ some (info_of e)))
        _ fs
        (λ rest h. elim (Option-cases (fs.node p)) [
          | inl none_ ↦ absurd (ground arith)
          | inr (e, found) ↦ (e, found, ground arith)
        ])
        (λ e rest h. cc)

  pub mkdir_keeps :
      (mode : ℕ) (q : Bytes) (e : Entry) → fs.node q ≡ some e → (mkdir p mode fs).1.node q ≡ some e
  unfolding mkdir
  mkdir_keeps mode q e h =
      refusable_rule (λ r. r.1.node q ≡ some e) _ fs
        (λ rest. ground (arith, list_same_iff p q, ap fs.node)) (λ e rest. h)

  pub mkdir-IsRealDir :
      (mode : ℕ)
      → (mkdir p mode fs).0 ≡ ok tt
      → IsRealDir (mkdir p mode fs).1 p × (fs.node p ≡ none)
  unfolding mkdir
  mkdir-IsRealDir mode =
      refusable_rule (λ r. r.0 ≡ ok tt → IsRealDir r.1 p × (fs.node p ≡ none)) _ fs
        (λ rest h. ((new_directory fs mode, ground (arith, same_refl p), refl), ground arith))
        (λ e rest h. cc)

  at_target-IsRealDir :
      {A : Type 0} (act : Bytes → Entry → M A)
      → (d : IsRealDir fs p) → at_target p act fs ≡ act p d.0 fs
  unfolding at_target
  at_target-IsRealDir act (e, found, d) = ground arith

-- Real directories stay real directories.
pub record KeepsDirs (fs fs' : Fs) : Type 0 where
  pub at : (q : Bytes) → IsRealDir fs q → IsRealDir fs' q

pub KeepsDirs-refl : (fs : Fs) → KeepsDirs fs fs
KeepsDirs-refl fs = record { at = λ q d. d }

pub KeepsDirs-trans : (a b c : Fs) → KeepsDirs a b → KeepsDirs b c → KeepsDirs a c
KeepsDirs-trans a b c k l = record { at = λ q d. l.at q (k.at q d) }

pub KeepsDirs-node : (fs fs' : Fs) → fs'.node ≡ fs.node → KeepsDirs fs fs'
KeepsDirs-node fs fs' e = record { at = λ q (x, found, d). (x, ap (λ n. n q) e ∙ found, d) }

-- A call on the real directory `p` that succeeds with a new entry there, or changes nothing.
pub record WritesDir (p : Bytes) (fs : Fs) (new : Entry) (r : Result (Unit {0}) × Fs) : Type 0 where
  pub done : r.0 ≡ ok tt → r.1.node ≡ update fs.node p (some new)
  pub failed : (e : Failure) → r.0 ≡ err e → r.1.node ≡ fs.node

module _ (p : Bytes) (fs : Fs) (d : IsRealDir fs p) where
  pub chown-WritesDir :
      (uid gid : ℤ)
      → WritesDir p fs
          (record d.0 { uid = new_owner uid d.0.uid; gid = new_owner gid d.0.gid })
          (chown p uid gid fs)
  unfolding chown
  chown-WritesDir uid gid =
      refusable_rule
        (λ r.
          WritesDir p fs (record d.0 { uid = new_owner uid d.0.uid; gid = new_owner gid d.0.gid })
            r)
        _ fs
        (λ rest.
          rw (at_target-IsRealDir p (record fs { refusals = rest }) _ d)
            (record { done = λ e. refl; failed = λ f e. cc }))
        (λ e rest. record { done = λ x. cc; failed = λ f x. refl })

  pub chmod-WritesDir : (mode : ℕ) → WritesDir p fs (record d.0 { mode = mode }) (chmod p mode fs)
  unfolding chmod
  chmod-WritesDir mode =
      refusable_rule (λ r. WritesDir p fs (record d.0 { mode = mode }) r) _ fs
        (λ rest.
          rw (at_target-IsRealDir p (record fs { refusals = rest }) _ d)
            (record { done = λ e. refl; failed = λ f e. cc }))
        (λ e rest. record { done = λ x. cc; failed = λ f x. refl })

module _ (p : Bytes) (fs : Fs) (new : Entry) (r : Result (Unit {0}) × Fs)
    (w : WritesDir p fs new r) where
  WritesDir-cases : (r.1.node ≡ update fs.node p (some new)) ⊎ (r.1.node ≡ fs.node)
  WritesDir-cases = elim (Result-cases r.0) [
    | inl (u, e) ↦ inl (w.done e)
    | inr (f, e) ↦ inr (w.failed f e)
  ]

  pub WritesDir-KeepsDirs : new.type ≡ directory → KeepsDirs fs r.1
  WritesDir-KeepsDirs d = elim WritesDir-cases [
    | inr e ↦ KeepsDirs-node fs r.1 e
    | inl e ↦ record {
      at = λ q (x, found, real). elim (Bool-cases (p == q)) [
        | inl here ↦ (new, rw e (ground arith), d)
        | inr there ↦ (x, rw e (ground arith), real)
      ];
    }
  ]

  pub WritesDir-other : (q : Bytes) → (p == q) ≡ false → r.1.node q ≡ fs.node q
  WritesDir-other q ne = elim WritesDir-cases [
    | inr e ↦ ap (λ n. n q) e
    | inl e ↦ rw e (ground arith)
  ]

  pub WritesDir-self : r.0 ≡ ok tt → r.1.node p ≡ some new
  WritesDir-self e = rw (w.done e) (ground (arith, same_refl p))
