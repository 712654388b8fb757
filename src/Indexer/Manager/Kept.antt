-- ===== src/Indexer/Manager/Kept.antt =====
-- The data sources in the entity cache while the triggers of a block run:
-- manager/src/indexer/instance_manager.rs.
use test_ci_for_massbitproto.Prelude.{
  Option, none, some, List, [], ◌∷◌, ◌++◌, map, ◌≡◌, sym, ap, ◌∙◌, append_nil, append_one,
}
use test_ci_for_massbitproto.EntityCache.State.{EntityCache}
use test_ci_for_massbitproto.EntityCache.Ops as Cache
use test_ci_for_massbitproto.Indexer.BlockState.{Chain, BlockState}
use test_ci_for_massbitproto.Indexer.Runtime.{
  Runtime, MappingError, ok, map_err, of_outcome, ok-injective, run_inversion, map_err_inversion,
}
use test_ci_for_massbitproto.Indexer.Instance.{IndexerInstance}
use test_ci_for_massbitproto.Indexer.Manager.Triggers.{
  process_decoded, process_trigger_in_runtime_hosts, process_trigger, process_triggers, explain,
}
use test_ci_for_massbitproto.Indexer.Manager.{as_unknown, add_data_sources, process_in_new_hosts}

-- the data sources that a transaction will record
abbrev pub sources : {C : Chain} → BlockState C → List C.env.StoredDataSource
sources s = s.entity_cache.data_sources

module _ {C : Chain} (R : Runtime C) where
  pub add_data_sources_lem :
      (data_sources : List R.DataSource) (cache : EntityCache C.env)
      → (add_data_sources R data_sources cache).data_sources
        ≡ cache.data_sources ++ map R.as_stored_dynamic_data_source data_sources
  unfolding add_data_sources Cache.add_data_source
  add_data_sources_lem [] cache = sym (append_nil cache.data_sources)
  add_data_sources_lem (ds ∷ data_sources) cache =
      add_data_sources_lem data_sources
        (Cache.add_data_source C.env (R.as_stored_dynamic_data_source ds) cache)
      ∙ append_one cache.data_sources (R.as_stored_dynamic_data_source ds)
          (map R.as_stored_dynamic_data_source data_sources)

  module _
      (keeps : (host : R.Host) (ptr : R.BlockPtr) (trigger : R.MappingTrigger) (s s' : BlockState C)
        → R.process_mapping_trigger host ptr trigger s ≡ ok s'
        → s'.entity_cache.data_sources ≡ s.entity_cache.data_sources) where
    process_decoded_keeps :
        (host : R.Host) (block : R.Block) (decoded : Option R.MappingTrigger) (s s' : BlockState C)
        → process_decoded R host block decoded s ≡ ok s'
        → sources s' ≡ sources s
    unfolding process_decoded
    process_decoded_keeps host block none s s' h = ap sources (sym (ok-injective h))
    process_decoded_keeps host block (some t) s s' h = keeps host (R.ptr block) t s s' h

    hosts_keep :
        (hosts : List R.Host) (block : R.Block) (trigger : R.TriggerData) (s s' : BlockState C)
        → process_trigger_in_runtime_hosts R hosts block trigger s ≡ ok s'
        → sources s' ≡ sources s
    unfolding process_trigger_in_runtime_hosts
    hosts_keep [] block trigger s s' h = ap sources (sym (ok-injective h))
    hosts_keep (host ∷ hosts) block trigger s s' h =
        let (decoded, matched, h₁) =
          run_inversion (of_outcome MappingError.unknown (R.match_and_decode host trigger block)) _
            s' h in
        let (s₁, first, rest) = run_inversion (process_decoded R host block decoded s) _ s' h₁ in
        hosts_keep hosts block trigger s₁ s' rest
        ∙ process_decoded_keeps host block decoded s s₁ first

    pub process_triggers_keeps :
        (this : IndexerInstance R) (block : R.Block) (triggers : List R.TriggerData)
        (s s' : BlockState C)
        → process_triggers R this block triggers s ≡ ok s'
        → sources s' ≡ sources s
    unfolding process_triggers process_trigger
    process_triggers_keeps this block [] s s' h = ap sources (sym (ok-injective h))
    process_triggers_keeps this block (t ∷ triggers) s s' h =
        let run = process_trigger_in_runtime_hosts R this.hosts block t s in
        let (s₁, first, rest) = run_inversion (map_err (explain R t) run) _ s' h in
        process_triggers_keeps this block triggers s₁ s' rest
        ∙ hosts_keep this.hosts block t s s₁ (map_err_inversion (explain R t) run s₁ first)

    pub process_in_new_hosts_keeps :
        (hosts : List R.Host) (block : R.Block) (triggers : List R.TriggerData)
        (s s' : BlockState C)
        → process_in_new_hosts R hosts block triggers s ≡ ok s'
        → sources s' ≡ sources s
    unfolding process_in_new_hosts
    process_in_new_hosts_keeps hosts block [] s s' h = ap sources (sym (ok-injective h))
    process_in_new_hosts_keeps hosts block (t ∷ triggers) s s' h =
        let run = process_trigger_in_runtime_hosts R hosts block t s in
        let (s₁, first, rest) = run_inversion (map_err as_unknown run) _ s' h in
        process_in_new_hosts_keeps hosts block triggers s₁ s' rest
        ∙ hosts_keep hosts block t s s₁ (map_err_inversion as_unknown run s₁ first)
