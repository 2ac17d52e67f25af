-- ===== src/Certs/Sound/Operations.antt =====
-- Every sequence of operations of managers on one store.
use compage_go.Base.{
  ℕ, ◌≡◌, sym, Bool, Option, none, some, nat_comparable, list_comparable, Bytes, subst,
}
use compage_go.Certs.Definition.{IssuerDefinition}
use compage_go.Certs.Crypto.{Crypto}
use compage_go.Certs.State.{State}
use compage_go.Certs.Store.{Store}
use compage_go.Certs.Manager.{Manager}
use compage_go.Certs.Authority.Ensure.{ensure}
use compage_go.Certs.Authority.Due.{EnsureOptions}
use compage_go.Certs.Authority.Operations.{
  promote_pending, discard_pending, prune_root, purge, close,
}
use compage_go.Certs.Authority.Unlocks.{store_local_unlock}
use compage_go.Certs.Sound.{IsSound}
use compage_go.Certs.Sound.Made.{KeysAreEncoded}
use compage_go.Certs.Sound.Reach.{Holds}
use compage_go.Certs.Sound.Kept.{
  ensure-Holds, promote_pending-Holds, discard_pending-Holds, prune_root-Holds,
  store_local_unlock-stored, purge-Holds,
}

module _ (x : Crypto) (encoded : KeysAreEncoded x) (parse_scheme : Bytes → Option Bytes)
    (definitions_equal : IssuerDefinition → IssuerDefinition → Bool) where
  -- One operation of a manager; or the caller goes on with another manager, other refusals to come, or
  -- a ledger to which issuers have added.
  pub data Step : Manager → Store → Manager → Store → Type 0 where
    ensured_step :
        (o : EnsureOptions) (now : ℕ) (m : Manager) (st : Store)
        → Step m st
            (ensure x parse_scheme definitions_equal o now st m).1.0
            (ensure x parse_scheme definitions_equal o now st m).1.1
    promoted_step :
        (unlock : Bytes) (now : ℕ) (m : Manager) (st : Store)
        → Step m st
            (promote_pending x parse_scheme definitions_equal unlock now m st).1.0
            (promote_pending x parse_scheme definitions_equal unlock now m st).1.1
    discarded_step :
        (m : Manager) (st : Store)
        → Step m st
            (discard_pending x parse_scheme definitions_equal m st).1.0
            (discard_pending x parse_scheme definitions_equal m st).1.1
    pruned_step :
        (g : ℕ) (expected : Bytes) (now : ℕ) (m : Manager) (st : Store)
        → Step m st m (prune_root x parse_scheme definitions_equal g expected now st).1
    unlock_step :
        (replace : Bool) (m : Manager) (st : Store)
        → Step m st m (store_local_unlock x parse_scheme definitions_equal replace m st).1
    purged_step :
        (id fingerprint : Bytes) (m : Manager) (st : Store)
        → Step m st
            (purge x parse_scheme definitions_equal id fingerprint m st).1.0
            (purge x parse_scheme definitions_equal id fingerprint m st).1.1
    closed_step : (m : Manager) (st : Store) → Step m st (close m) st
    outside_step : (m m' : Manager) (st st' : Store) → st'.stored ≡ st.stored → Step m st m' st'

  pub data Reach (m : Manager) (st : Store) : Manager → Store → Type 0 where
    start : Reach m st m st
    next :
        {m' m'' : Manager} {st' st'' : Store}
        → Reach m st m' st'
        → Step m' st' m'' st''
        → Reach m st m'' st''

  Step-Holds :
      {m : Manager} {st : Store} {m' : Manager} {st' : Store}
      → Step m st m' st'
      → Holds st.stored
      → Holds st'.stored
  Step-Holds (ensured_step o now m st) old =
      ensure-Holds x encoded parse_scheme definitions_equal o now st m old
  Step-Holds (promoted_step unlock now m st) old =
      promote_pending-Holds x encoded parse_scheme definitions_equal unlock now m st old
  Step-Holds (discarded_step m st) old =
      discard_pending-Holds x encoded parse_scheme definitions_equal m st old
  Step-Holds (pruned_step g expected now m st) old =
      prune_root-Holds x encoded parse_scheme definitions_equal g expected now st old
  Step-Holds (unlock_step replace m st) old =
      subst Holds
        (sym (store_local_unlock-stored x encoded parse_scheme definitions_equal replace m st)) old
  Step-Holds (purged_step id fingerprint m st) old =
      purge-Holds x encoded parse_scheme definitions_equal id fingerprint m st old
  Step-Holds (closed_step m st) old = old
  Step-Holds (outside_step m m' st st' same) old = subst Holds (sym same) old

  Reach-Holds :
      {m : Manager} {st : Store} {m' : Manager} {st' : Store}
      → Reach m st m' st'
      → Holds st.stored
      → Holds st'.stored
  Reach-Holds start old = old
  Reach-Holds (next r s) old = Step-Holds s (Reach-Holds r old)

  -- Whatever operations managers run on a store that is empty at first, in whatever order, failing or
  -- not: a state that is stored holds the key of its active root, of a pending root and of the active
  -- and staged versions of issuers, each version under the root that it belongs to, and no other
  -- private key, if an encoded private key is never empty.
  pub reachable-IsSound :
      (m m' : Manager) (st st' : Store) (s : State)
      → st.stored ≡ none
      → Reach m st m' st'
      → st'.stored ≡ some s
      → IsSound s
  reachable-IsSound m m' st st' s empty r there =
      subst Holds there (Reach-Holds r (subst Holds (sym empty) tt))
