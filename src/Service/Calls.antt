-- ===== src/Service/Calls.antt =====
-- `osFiles` of service/backend.go by the calls of the package os that it makes.
pub mod Frame
use compage_go.Base.{
  ℕ, zero, suc, ◌-◌, ◌%◌, ◌^◌, Bool, not, ◌&&◌, ◌||◌, Option, none, some, [], ◌∷◌, ◌++◌, ◌==◌,
  nat_comparable, list_comparable, if◌then◌else◌, Bytes,
}
use compage_go.Go.Strings.{has_prefix}
use compage_go.Go.Path.{slash, is_abs, clean, join_two, dir}
use compage_go.Go.Strconv.{ℤ, pos, negsuc}
use compage_go.Service.Errors.{not_exist, exist, not_dir, other, io, Result, ok, err}
use compage_go.Service.Files.{
  Fs, Entry, directory, regular, symlink, M, ◌>>◌, pure, raise, refusable, Info, info_of, is_dir,
}

abbrev pub update : (Bytes → Option Entry) → Bytes → Option Entry → Bytes → Option Entry
update node p v q = if p == q then v else node q

abbrev pub put : Bytes → Entry → M (Unit {0})
put p e fs = (ok tt, record fs { node = update fs.node p (some e) })

abbrev report : Option Entry → Result (Option Info)
report none = err (io not_exist)
report (some e) = ok (some (info_of e))

-- `os.Lstat`
unfoldable pub lstat : Bytes → M (Option Info)
unfolding refusable
lstat p = refusable (λ fs. (report (fs.node p), fs))

abbrev target_path : Bytes → Bytes → Bytes
target_path p target = if is_abs target then clean target else join_two (dir p) target

-- The path behind the symbolic links that a path ends in; Linux gives up after forty.
unfoldable pub resolve : ℕ → (Bytes → Option Entry) → Bytes → Option Bytes
resolve zero node p = none
resolve (suc fuel) node p = elim (node p) [
  | none ↦ some p
  | some e ↦ elim e.type [
    | directory ↦ some p
    | regular ↦ some p
    | symlink target ↦ resolve fuel node (target_path p target)
  ]
]

abbrev pub max_links : ℕ
max_links = 41

-- A call on what a path leads to.
module _ {A : Type 0} where
  unfoldable pub at_target : Bytes → (Bytes → Entry → M A) → M A
  unfolding resolve
  at_target p act fs = elim (resolve max_links fs.node p) [
    | none ↦ (err (io other), fs)
    | some q ↦ elim (fs.node q) [ none ↦ (err (io not_exist), fs) | some e ↦ act q e fs ]
  ]

-- `os.Stat`
unfoldable pub stat : Bytes → M (Option Info)
unfolding refusable at_target
stat p = refusable (at_target p (λ q e. pure (some (info_of e))))

abbrev pub new_directory : Fs → ℕ → Entry
new_directory fs mode = record {
  type = directory;
  mode = fs.masked mode;
  uid = fs.euid;
  gid = fs.egid;
  content = [];
}

-- `os.Mkdir`
unfoldable pub mkdir : Bytes → ℕ → M (Unit {0})
unfolding refusable
mkdir p mode = refusable λ fs. elim (fs.node p) [
  | some _ ↦ (err (io exist), fs)
  | none ↦ elim (fs.node (dir p)) [
    | none ↦ (err (io not_exist), fs)
    | some parent ↦
        if is_dir parent.type then put p (new_directory fs mode) fs else (err (io not_dir), fs)
  ]
]

-- An owner as the system call takes it: 32 bits, all of them set for "leave as it is".
abbrev pub word : ℤ → ℕ
word (pos n) = n % 2 ^ 32
word (negsuc n) = 2 ^ 32 - 1 - n % 2 ^ 32

abbrev pub new_owner : ℤ → ℕ → ℕ
new_owner id old = if word id == 2 ^ 32 - 1 then old else word id

-- `os.Chown`
unfoldable pub chown : Bytes → ℤ → ℤ → M (Unit {0})
unfolding refusable at_target
chown p uid gid =
    refusable
      (at_target p λ q e. put q (record e { uid = new_owner uid e.uid; gid = new_owner gid e.gid }))

-- `os.Chmod`
unfoldable pub chmod : Bytes → ℕ → M (Unit {0})
unfolding refusable at_target
chmod p mode = refusable (at_target p λ q e. put q (record e { mode = mode }))

-- `q` is `p` or stands below it.
abbrev pub is_under : Bytes → Bytes → Bool
is_under p q = p == slash ∷ [] || q == p || has_prefix q (p ++ slash ∷ [])

abbrev pub remove_tree : Bytes → (Bytes → Option Entry) → Bytes → Option Entry
remove_tree p node q = if is_under p q then none else node q

abbrev pub tear : Bytes → (Bytes → Bool) → (Bytes → Option Entry) → Bytes → Option Entry
tear p survives node q = if is_under p q && not (survives q) then none else node q

-- `os.RemoveAll`: a path that is not there is no error, and a removal that is refused may have
-- removed a part.
unfoldable pub remove_all : Bytes → M (Unit {0})
remove_all p fs = elim fs.refusals [
  | [] ↦ (ok tt, record fs { node = remove_tree p fs.node })
  | none ∷ rest ↦ (ok tt, record fs { node = remove_tree p fs.node; refusals = rest })
  | some e ∷ rest ↦ (err (io e), record fs { node = tear p fs.survives fs.node; refusals = rest })
]

-- The directory that a new file goes into.
abbrev pub in_directory : Bytes → Entry → M (Unit {0})
in_directory q e = if is_dir e.type then pure tt else raise (io not_dir)

-- `os.Rename` of a finished temporary file onto `p`
abbrev pub replace : Bytes → Bytes → ℕ → M (Unit {0})
replace p content mode fs =
    let file : Entry = record {
      type = regular;
      mode = mode;
      uid = fs.euid;
      gid = fs.egid;
      content = content;
    } in
    elim (fs.node p) [
      | none ↦ put p file fs
      | some e ↦ if is_dir e.type then (err (io exist), fs) else put p file fs
    ]

-- `osFiles.write`: the temporary file is gone again if it cannot be filled or renamed, and the
-- file stays written if its directory cannot be synced.
unfoldable pub write : Bytes → Bytes → ℕ → M (Unit {0})
unfolding refusable at_target
write p content mode = do
  refusable (at_target (dir p) in_directory)
  refusable (replace p content mode)
  refusable (pure tt)
