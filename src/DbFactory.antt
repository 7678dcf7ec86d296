-- ===== src/DbFactory.antt =====
-- db/db_factory.cc: the choice of a binding by the property "dbname".
use ycsb.Prelude.{Option, none, some}
use ycsb.Prelude.Int.{ℤ}
use ycsb.Prelude.Tests.{if◌then◌else◌}
use ycsb.Prelude.Outcome.{Outcome, ok, ◌>>=◌}
use ycsb.Prelude.Text.{Bytes, bytes_eq, str}
use ycsb.Properties.{Properties, at}
use ycsb.Lsm.Config.{Binding, split_binding, unified_binding, split_config, unified_config}

create_named : ℤ → Properties → Bytes → Outcome (Option Binding)
create_named threads props name =
    if bytes_eq name (str "splitlsm")
    then (do c ← split_config threads props; ok (some (split_binding c)))
    else if bytes_eq name (str "unifiedlsm")
    then (do c ← unified_config threads props; ok (some (unified_binding c)))
    else ok none

-- CreateDB; `none` is the NULL that stands for an unknown name.
unfoldable pub create_db : ℤ → Properties → Outcome (Option Binding)
unfolding create_named
create_db threads props = do name ← at props (str "dbname"); create_named threads props name
