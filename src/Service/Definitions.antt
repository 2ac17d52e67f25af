-- ===== src/Service/Definitions.antt =====
-- service/backend.go: the operations on the definition of a service, as far as they are not
-- `os.MkdirAll` or `os.Remove`.
use compage_go.Base.{
  ℕ, not, Option, none, some, ◌++◌, ◌==◌, nat_comparable, list_comparable, if◌then◌else◌, Bytes,
  lit,
}
use compage_go.Go.Strconv.{ℤ, int_comparable}
use compage_go.Service.Errors.{
  validation, wrapped, plain, is_not_exist, io, not_dir, Result, ok, err,
}
use compage_go.Service.Files.{
  Info, M, attempt, is_symlink, is_dir, lift, pure, raise, refusable, wrap, ◌>>=◌, ◌>>◌,
}
use compage_go.Service.Calls.{lstat, stat, at_target, chown, chmod, write}
use compage_go.Service.Directories.{owned_by}

-- `os.ReadFile`
unfoldable pub read : Bytes → M Bytes
unfolding refusable at_target
read p = refusable (at_target p λ q e. if is_dir e.type then raise (io not_dir) else pure e.content)

abbrev pub judge_link : Option Info → Result (Unit {0})
judge_link none = err (plain (lit "service: inspecting definition path: empty file information"))
judge_link (some i) =
    if is_symlink i.type
    then err (validation (lit "service definition path must not be a symlink"))
    else ok tt

-- What `rejectSymlink` makes of the report of `lstat`.
unfoldable pub link_found : Bytes → Result (Option Info) → Result (Unit {0})
link_found path (ok info) = judge_link info
link_found path (err e) =
    if is_not_exist e
    then ok tt
    else err (wrapped (lit "service: inspecting definition path " ++ path) e)

-- `rejectSymlink`
unfoldable pub reject_symlink : Bytes → M (Unit {0})
unfolding link_found
reject_symlink path = attempt (lstat path) >>= λ found. lift (link_found path found)

-- `readDefinition`
unfoldable pub read_definition : Bytes → M Bytes
unfolding read
read_definition path = wrap (lit "service: reading definition " ++ path) (read path)

-- `writeDefinition`
unfoldable pub write_definition : Bytes → Bytes → ℕ → M (Unit {0})
write_definition path data_ mode =
    wrap (lit "service: writing definition " ++ path) (write path data_ mode)

-- `setDefinitionOwner`
unfoldable pub set_definition_owner : Bytes → ℤ → ℤ → ℕ → M (Unit {0})
set_definition_owner path uid gid mode = do
  wrap (lit "service: owning definition " ++ path) (chown path uid gid)
  wrap (lit "service: setting definition mode " ++ path) (chmod path mode)

abbrev pub judge_mode : Bytes → ℕ → Option Info → Result (Unit {0})
judge_mode path mode none =
    err (plain (lit "service: verifying definition " ++ (path ++ lit ": empty file information")))
judge_mode path mode (some i) =
    if not (i.perm == mode) then err (validation (lit "definition has unexpected mode")) else ok tt

-- `verifyDefinitionMode`
unfoldable pub verify_definition_mode : Bytes → ℕ → M (Unit {0})
verify_definition_mode path mode =
    wrap (lit "service: verifying definition " ++ path) (stat path) >>= λ info.
    lift (judge_mode path mode info)

abbrev pub judge_owner : Bytes → ℤ → ℤ → Option Info → Result (Unit {0})
judge_owner path uid gid none =
    err (
      plain
        (lit "service: verifying definition owner " ++ (path ++ lit ": empty file information")))
judge_owner path uid gid (some i) = elim i.stat [
  | none ↦ err (plain (lit "service: unsupported definition ownership metadata"))
  | some owner ↦
      if not (owned_by owner uid gid)
      then err (validation (lit "definition has unexpected ownership"))
      else ok tt
]

-- `verifyDefinitionOwner`
unfoldable pub verify_definition_owner : Bytes → ℤ → ℤ → M (Unit {0})
verify_definition_owner path uid gid =
    wrap (lit "service: verifying definition owner " ++ path) (stat path) >>= λ info.
    lift (judge_owner path uid gid info)
