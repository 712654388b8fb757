-- ===== src/Indexer/Instance.antt =====
-- `IndexerInstance` of manager/src/indexer/instance.rs: the hosts of the data sources of an indexer, and
-- the channels to the threads that run their modules.
pub mod Order
pub mod Modules
use test_ci_for_massbitproto.Prelude.{
  Bool, true, false, Option, none, some, List, [], ◌∷◌, ◌++◌, if◌then◌else◌,
}
use test_ci_for_massbitproto.Prelude.HashMap
use test_ci_for_massbitproto.Prelude.HashMap.{HashMap}
use test_ci_for_massbitproto.Prelude.Int.{ℤ, le_int}
use test_ci_for_massbitproto.Prelude.Outcome.{Outcome, done, ◌>>=◌, ◌>>◌, assert}
use test_ci_for_massbitproto.Indexer.BlockState.{Chain}
use test_ci_for_massbitproto.Indexer.Runtime.{Runtime}

-- `<=` on `Option<BlockNumber>`
abbrev pub le_block : Option ℤ → Option ℤ → Bool
le_block none b = true
le_block (some a) none = false
le_block (some a) (some b) = le_int a b

module _ {C : Chain} (R : Runtime C) where
  pub record IndexerInstance : Type 0 where
    pub hosts : List R.Host
    pub module_cache : HashMap R.hash_discrete R.Sender

  -- the channel to the thread of a module that is not in the cache
  unfoldable pub spawn : R.Module → IndexerInstance → Outcome (R.Sender × IndexerInstance)
  spawn module_bytes this = do
    sender ← R.spawn_mapping module_bytes
    done (
      sender,
      record this {
        module_cache =
            HashMap.insert R.hash_discrete (R.keccak256 module_bytes) sender this.module_cache;
      },
    )

  unfoldable pub mapping_request_sender :
      R.DataSource → IndexerInstance → Outcome (R.Sender × IndexerInstance)
  mapping_request_sender data_source this =
      elim (HashMap.get R.hash_discrete (R.keccak256 (R.runtime data_source)) this.module_cache) [
        | none ↦ spawn (R.runtime data_source) this
        | some sender ↦ done (sender, this)
      ]

  unfoldable pub new_host : R.DataSource → IndexerInstance → Outcome (R.Host × IndexerInstance)
  new_host data_source this = do
    (sender, this') ← mapping_request_sender data_source this
    host ← R.build data_source sender
    done (host, this')

  -- `for ds in manifest.data_sources`
  unfoldable pub push_hosts : List R.DataSource → IndexerInstance → Outcome IndexerInstance
  push_hosts [] this = done this
  push_hosts (ds ∷ data_sources) this = do
    (host, this') ← new_host ds this
    push_hosts data_sources (record this' { hosts = this'.hosts ++ host ∷ [] })

  unfoldable pub from_manifest : List R.DataSource → Outcome IndexerInstance
  from_manifest data_sources =
      push_hosts data_sources (record { hosts = []; module_cache = HashMap.new R.hash_discrete })

  -- `self.hosts.last().and_then(|h| h.creation_block_number())`
  unfoldable pub last_creation_block : List R.Host → Option ℤ
  last_creation_block [] = none
  last_creation_block (h ∷ []) = R.creation_block_number h
  last_creation_block (h ∷ k ∷ hosts) = last_creation_block (k ∷ hosts)

  -- `self.hosts.contains(&host)`
  unfoldable pub contains : List R.Host → R.Host → Bool
  contains [] host = false
  contains (h ∷ hosts) host = if R.host_eq h host then true else contains hosts host

  unfoldable pub add_dynamic_data_source :
      R.DataSource → IndexerInstance → Outcome (Option R.Host × IndexerInstance)
  add_dynamic_data_source data_source this = do
    assert (le_block (last_creation_block this.hosts) (R.creation_block data_source))
    (host, this') ← new_host data_source this
    done (
        if contains this'.hosts host
        then (none, this')
        else (some host, record this' { hosts = this'.hosts ++ host ∷ [] }))
