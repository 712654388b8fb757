-- ===== src/Indexer/Manager/Sources.antt =====
-- `create_dynamic_data_sources` of manager/src/indexer/instance_manager.rs.
use test_ci_for_massbitproto.Prelude.{Option, none, some, List, [], ◌∷◌}
use test_ci_for_massbitproto.Prelude.Outcome.{Outcome, done, ◌>>=◌}
use test_ci_for_massbitproto.Indexer.BlockState.{Chain, DataSourceTemplateInfo}
use test_ci_for_massbitproto.Indexer.Runtime.{Runtime}
use test_ci_for_massbitproto.Indexer.Instance.{IndexerInstance, add_dynamic_data_source}

module _ {C : Chain} (R : Runtime C) where
  -- a data source whose host is a duplicate is left out
  unfoldable pub push_created :
      Option R.Host
      → R.DataSource
      → IndexerInstance R × List R.DataSource × List R.Host
      → IndexerInstance R × List R.DataSource × List R.Host
  push_created none data_source (this, data_sources, hosts) = (this, data_sources, hosts)
  push_created (some host) data_source (this, data_sources, hosts) =
      (this, data_source ∷ data_sources, host ∷ hosts)

  -- the data sources with new hosts, in the order in which they were created, and their hosts
  unfoldable pub create_dynamic_data_sources :
      List (DataSourceTemplateInfo C)
      → IndexerInstance R
      → Outcome (IndexerInstance R × List R.DataSource × List R.Host)
  create_dynamic_data_sources [] this = done (this, [], [])
  create_dynamic_data_sources (info ∷ infos) this = do
    data_source ← R.try_from info
    (host, this') ← add_dynamic_data_source R data_source this
    rest ← create_dynamic_data_sources infos this'
    done (push_created host data_source rest)
