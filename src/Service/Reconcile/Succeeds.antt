-- ===== src/Service/Reconcile/Succeeds.antt =====
-- What stands after `reconcileDirectories` has succeeded.
use compage_go.Base.{nat_comparable, list_comparable}
use compage_go.Service.Reconcile.Managed.{Managed}
