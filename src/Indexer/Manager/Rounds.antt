-- ===== src/Indexer/Manager/Rounds.antt =====
-- One round of the loop of `process_block` in manager/src/indexer/instance_manager.rs, where templates are
-- nested to some depth.
use test_ci_for_massbitproto.Prelude.{
  ℕ, suc, ◌≤◌, ◌<◌, not, Option, none, some, List, [], ◌∷◌, ◌≡◌, inl, inr, refl, sym, ◌∙◌, subst,
  arith, All,
}
use test_ci_for_massbitproto.Prelude.Outcome.{Outcome, assert, bind_inversion, done-injective}
use test_ci_for_massbitproto.Indexer.BlockState.{
  Chain, BlockState, DataSourceTemplateInfo, drain_created_data_sources,
}
use test_ci_for_massbitproto.Indexer.Runtime.{Runtime, ok}
use test_ci_for_massbitproto.Indexer.Instance.{IndexerInstance, add_dynamic_data_source}
use test_ci_for_massbitproto.Indexer.Instance.Order.{IsAdded, add_dynamic_data_source-IsAdded}
use test_ci_for_massbitproto.Indexer.Manager.Sources.{push_created, create_dynamic_data_sources}
use test_ci_for_massbitproto.Indexer.Manager.Nesting.{
  Ends, bind-Ends, bind_outcome-Ends, Within, HostsWithin, new_hosts-Ends,
}
use test_ci_for_massbitproto.Indexer.Manager.{
  BlockProcessingError, IndexingState, persist_dynamic_data_sources, process_in_new_hosts,
  process_created,
}

drained_lem :
    {C : Chain} (s s' : BlockState C) (created : List (DataSourceTemplateInfo C))
    → drain_created_data_sources C s ≡ Outcome.done (s', created)
    → (created ≡ s.created_data_sources)
      × (s'.created_data_sources ≡ [])
      × (s'.in_handler ≡ s.in_handler)
unfolding drain_created_data_sources
drained_lem {C} s s' created h =
    let (u, out, last) = bind_inversion (assert (not s.in_handler)) _ (s', created) h in
    subst
      (λ (r : BlockState C × List (DataSourceTemplateInfo C)).
        (r.1 ≡ s.created_data_sources)
        × (r.0.created_data_sources ≡ [])
        × (r.0.in_handler ≡ s.in_handler))
      (done-injective last) (refl, refl, refl)

module _ {C : Chain} (R : Runtime C) (nesting : DataSourceTemplateInfo C → ℕ)
    (host_nesting : R.Host → ℕ) where
  module _
      (builds : (info : DataSourceTemplateInfo C) (ds : R.DataSource) (sender : R.Sender)
          (host : R.Host)
        → R.try_from info ≡ Outcome.done ds
        → R.build ds sender ≡ Outcome.done host
        → host_nesting host ≤ nesting info) where
    pushed-HostsWithin :
        (n : ℕ) (added : Option R.Host) (info : DataSourceTemplateInfo C) (ds : R.DataSource)
        (this this₁ this₂ : IndexerInstance R) (sources : List R.DataSource) (new : List R.Host)
        → R.try_from info ≡ Outcome.done ds
        → nesting info < suc n
        → IsAdded R ds this (added, this₁)
        → HostsWithin R nesting host_nesting n new
        → HostsWithin R nesting host_nesting n (push_created R added ds (this₂, sources, new)).2
    unfolding push_created
    pushed-HostsWithin n none info ds this this₁ this₂ sources new made small is_added hs = hs
    pushed-HostsWithin n (some k) info ds this this₁ this₂ sources new made small
          (inl (nothing, same)) hs =
        absurd (ground (arith, nothing))
    pushed-HostsWithin n (some k) info ds this this₁ this₂ sources new made small
          (inr (host, given, fresh, behind, sender, from)) hs =
        let same : host ≡ k = ground (arith, given) in
        let low : host_nesting host ≤ n =
          omega (arith, builds info ds sender host made from, small) in
        (subst (λ h. host_nesting h ≤ n) same low, hs)

    created-HostsWithin :
        (n : ℕ) (infos : List (DataSourceTemplateInfo C)) (this this' : IndexerInstance R)
        (data_sources : List R.DataSource) (hosts : List R.Host)
        → All (λ info. nesting info < suc n) infos
        → create_dynamic_data_sources R infos this ≡ Outcome.done (this', data_sources, hosts)
        → HostsWithin R nesting host_nesting n hosts
    unfolding create_dynamic_data_sources
    created-HostsWithin n [] this this' data_sources hosts small h =
        subst
          (λ (r : IndexerInstance R × List R.DataSource × List R.Host).
            HostsWithin R nesting host_nesting n r.2)
          (done-injective h) tt
    created-HostsWithin n (info ∷ infos) this this' data_sources hosts (small, rest_small) h =
        let (ds, made, h₁) = bind_inversion (R.try_from info) _ (this', data_sources, hosts) h in
        let ((added, this₁), adds, h₂) =
          bind_inversion (add_dynamic_data_source R ds this) _ (this', data_sources, hosts) h₁ in
        let ((this₂, sources, new), creates, last) =
          bind_inversion (create_dynamic_data_sources R infos this₁) _ (this', data_sources, hosts)
            h₂ in
        let (late, is_added) = add_dynamic_data_source-IsAdded R ds this this₁ added adds in
        subst
          (λ (r : IndexerInstance R × List R.DataSource × List R.Host).
            HostsWithin R nesting host_nesting n r.2)
          (done-injective last)
          (pushed-HostsWithin n added info ds this this₁ this₂ sources new made small is_added
            (created-HostsWithin n infos this₁ this₂ sources new rest_small creates))

    module _
        (creates : (n : ℕ) (host : R.Host) (ptr : R.BlockPtr) (trigger : R.MappingTrigger)
            (s : BlockState C)
          → host_nesting host ≤ n
          → Within R nesting host_nesting n s
          → Ends
              (Within R nesting host_nesting n)
              (R.process_mapping_trigger host ptr trigger s)) where
      abbrev pub Bounded : ℕ → IndexingState R × BlockState C → Type 0
      Bounded n (ctx, s) = Within R nesting host_nesting n s

      pub process_created-Ends :
          (n : ℕ) (block : R.Block) (ctx : IndexingState R) (s : BlockState C)
          → Within R nesting host_nesting (suc n) s
          → Ends (Bounded n) (process_created R block (ctx, s))
      unfolding process_created persist_dynamic_data_sources
      process_created-Ends n block ctx s (small, out) =
          bind_outcome-Ends (Bounded n) BlockProcessingError.unknown
            (drain_created_data_sources C s) _
            (λ (s₁, created) drained.
              let (all, none_left, out') = drained_lem s s₁ created drained in
              bind_outcome-Ends (Bounded n) BlockProcessingError.unknown
                (create_dynamic_data_sources R created ctx.instance) _
                (λ (instance', batch, hosts) made.
                  bind_outcome-Ends (Bounded n) BlockProcessingError.unknown
                    (R.triggers_in_block block (R.from_data_sources batch)) _
                    (λ triggers found.
                      let p =
                        persist_dynamic_data_sources R batch
                          (record ctx { instance = instance' }, s₁) in
                      bind-Ends (Within R nesting host_nesting n) (Bounded n)
                        (process_in_new_hosts R hosts block triggers p.1) (λ s₃. ok (p.0, s₃))
                        (new_hosts-Ends R nesting host_nesting builds creates n hosts block triggers
                          p.1
                          (created-HostsWithin n created ctx.instance instance' batch hosts
                            (subst (All (λ info. nesting info < suc n)) (sym all) small) made)
                          (subst (All (λ info. nesting info < n)) (sym none_left) tt, out' ∙ out))
                        (λ s₃ w. w))))
