-- ===== src/Indexer/Manager/Loop.antt =====
-- The loop of `process_block` in manager/src/indexer/instance_manager.rs over the data sources that are
-- created in a block.
use test_ci_for_massbitproto.Prelude.{
  ℕ, zero, suc, false, List, [], ◌∷◌, ◌++◌, map, ◌≡◌, refl, sym, ap, ◌∙◌, subst, arith, append_nil,
  append_assoc, Bool-cases, inl, inr, not,
}
use test_ci_for_massbitproto.Prelude.Outcome.{Outcome, assert, bind_inversion, done-injective}
use test_ci_for_massbitproto.Indexer.BlockState.{
  Chain, BlockState, DataSourceTemplateInfo, has_created_data_sources, drain_created_data_sources,
}
use test_ci_for_massbitproto.Indexer.Runtime.{
  Runtime, ok, of_outcome, ok-injective, run_inversion, of_outcome_inversion,
}
use test_ci_for_massbitproto.Indexer.Manager.Sources.{create_dynamic_data_sources}
use test_ci_for_massbitproto.Indexer.Manager.Recorded.{
  AreBuilt, append-AreBuilt, create_dynamic_data_sources_lem,
}
use test_ci_for_massbitproto.Indexer.Manager.Kept.{
  sources, add_data_sources_lem, process_in_new_hosts_keeps,
}
use test_ci_for_massbitproto.Indexer.Manager.{
  BlockProcessingError, IndexingState, persist_dynamic_data_sources, process_in_new_hosts,
  process_created, process_all_created,
}

abbrev pub joined : {A : Type 0} → List (List A) → List A
joined [] = []
joined (batch ∷ batches) = batch ++ joined batches

map_append : {A B : Type 0} (f : A → B) (xs ys : List A) → map f (xs ++ ys) ≡ map f xs ++ map f ys
map_append f [] ys = refl
map_append f (x ∷ xs) ys = ap (◌∷◌ (f x)) (map_append f xs ys)

drain_keeps :
    {C : Chain} (s s' : BlockState C) (created : List (DataSourceTemplateInfo C))
    → drain_created_data_sources C s ≡ Outcome.done (s', created)
    → sources s' ≡ sources s
unfolding drain_created_data_sources
drain_keeps s s' created h =
    let (u, out, last) = bind_inversion (assert (not s.in_handler)) _ (s', created) h in
    ap (λ (r : BlockState _ × List (DataSourceTemplateInfo _)). sources r.0)
      (sym (done-injective last))

module _ {C : Chain} (R : Runtime C) where
  -- the filter, extended by each of the batches of data sources
  abbrev pub extended : List (List R.DataSource) → R.TriggerFilter → R.TriggerFilter
  extended [] filter = filter
  extended (batch ∷ batches) filter = extended batches (R.extend batch filter)

  -- What rounds of the loop add with the batches of data sources: their hosts, the sources to be
  -- recorded, and the filter.
  abbrev pub IsGrown :
      List (List R.DataSource)
      → IndexingState R × BlockState C
      → IndexingState R × BlockState C
      → Type 0
  IsGrown batches (ctx, s) (ctx', s') =
      ((new : List R.Host) × (ctx'.instance.hosts ≡ ctx.instance.hosts ++ new)
        × AreBuilt R (joined batches) new)
      × (sources s' ≡ sources s ++ map R.as_stored_dynamic_data_source (joined batches))
      × (ctx'.filter ≡ extended batches ctx.filter)

  none-IsGrown : (p : IndexingState R × BlockState C) → IsGrown [] p p
  none-IsGrown (ctx, s) =
      (([], sym (append_nil ctx.instance.hosts), tt), sym (append_nil (sources s)), refl)

  more-IsGrown :
      (batch : List R.DataSource) (batches : List (List R.DataSource))
      (p q r : IndexingState R × BlockState C)
      → IsGrown (batch ∷ []) p q
      → IsGrown batches q r
      → IsGrown (batch ∷ batches) p r
  more-IsGrown batch batches (ctx, s) (ctx₁, s₁) (ctx₂, s₂) ((new, hosts, built), grown, filter)
        ((new', hosts', built'), grown', filter') =
      (
        (
          new ++ new',
          hosts' ∙ ap (λ l. l ++ new') hosts ∙ append_assoc ctx.instance.hosts new new',
          append-AreBuilt R batch (joined batches) new new'
              (subst (λ l. AreBuilt R l new) (append_nil batch) built) built',
        ),
        grown'
            ∙ ap (λ l. l ++ map R.as_stored_dynamic_data_source (joined batches))
                (grown
                  ∙ ap (λ l. sources s ++ map R.as_stored_dynamic_data_source l) (append_nil batch))
            ∙ append_assoc (sources s) (map R.as_stored_dynamic_data_source batch)
                (map R.as_stored_dynamic_data_source (joined batches))
            ∙ ap (λ l. sources s ++ l)
                (sym (map_append R.as_stored_dynamic_data_source batch (joined batches))),
        filter' ∙ ap (extended batches) filter,
      )

  module _
      (keeps : (host : R.Host) (ptr : R.BlockPtr) (trigger : R.MappingTrigger) (s s' : BlockState C)
        → R.process_mapping_trigger host ptr trigger s ≡ ok s'
        → s'.entity_cache.data_sources ≡ s.entity_cache.data_sources) where
    process_created-IsGrown :
        (block : R.Block) (ctx : IndexingState R) (s : BlockState C)
        (r : IndexingState R × BlockState C)
        → process_created R block (ctx, s) ≡ ok r
        → (batch : List R.DataSource) × IsGrown (batch ∷ []) (ctx, s) r
    unfolding process_created persist_dynamic_data_sources
    process_created-IsGrown block ctx s r h =
        let ((s₁, created), drained, h₁) =
          run_inversion (of_outcome BlockProcessingError.unknown (drain_created_data_sources C s)) _
            r h in
        let ((instance', batch, hosts), creates, h₂) =
          run_inversion
            (of_outcome BlockProcessingError.unknown
              (create_dynamic_data_sources R created ctx.instance))
            _ r h₁ in
        let (triggers, found, h₃) =
          run_inversion
            (of_outcome BlockProcessingError.unknown
              (R.triggers_in_block block (R.from_data_sources batch)))
            _ r h₂ in
        let p = persist_dynamic_data_sources R batch (record ctx { instance = instance' }, s₁) in
        let (s₃, processed, last) =
          run_inversion (process_in_new_hosts R hosts block triggers p.1) _ r h₃ in
        let (more, built) =
          create_dynamic_data_sources_lem R created ctx.instance instance' batch hosts
            (of_outcome_inversion _ _ _ creates) in
        (
          batch,
          subst (IsGrown (batch ∷ []) (ctx, s)) (ok-injective last) (
            (hosts, more, subst (λ l. AreBuilt R l hosts) (sym (append_nil batch)) built),
            process_in_new_hosts_keeps R keeps hosts block triggers p.1 s₃ processed
                ∙ add_data_sources_lem R batch s₁.entity_cache
                ∙ ap (λ l. l ++ map R.as_stored_dynamic_data_source batch)
                    (drain_keeps s s₁ created (of_outcome_inversion _ _ _ drained))
                ∙ ap (λ l. sources s ++ map R.as_stored_dynamic_data_source l)
                    (sym (append_nil batch)),
            refl,
          ),
        )

    -- the rounds of the loop that were run, and none where there was nothing to do
    pub process_all_created-IsGrown :
        (fuel : ℕ) (block : R.Block) (ctx : IndexingState R) (s : BlockState C)
        (r : IndexingState R × BlockState C)
        → process_all_created R fuel block (ctx, s) ≡ ok r
        → (batches : List (List R.DataSource)) × IsGrown batches (ctx, s) r
          × (has_created_data_sources C s ≡ Outcome.done false → batches ≡ [])
    unfolding process_all_created
    process_all_created-IsGrown zero block ctx s r h =
        let (created, known, rest) =
          run_inversion (of_outcome BlockProcessingError.unknown (has_created_data_sources C s)) _ r
            h in
        elim (Bool-cases created) [
          | inl yes_created ↦ absurd (ground (arith, rw yes_created at rest))
          | inr nothing ↦ (
            [],
            subst (IsGrown [] (ctx, s)) (ok-injective (rw nothing at rest)) (none-IsGrown (ctx, s)),
            λ e. refl,
          )
        ]
    process_all_created-IsGrown (suc fuel) block ctx s r h =
        let (created, known, rest) =
          run_inversion (of_outcome BlockProcessingError.unknown (has_created_data_sources C s)) _ r
            h in
        elim (Bool-cases created) [
          | inl yes_created ↦
              let ((ctx₁, s₁), first, later) =
                run_inversion (process_created R block (ctx, s)) _ r (rw yes_created at rest) in
              let (batch, grown) = process_created-IsGrown block ctx s (ctx₁, s₁) first in
              let (batches, grown', e) = process_all_created-IsGrown fuel block ctx₁ s₁ r later in
              (
                batch ∷ batches,
                more-IsGrown batch batches (ctx, s) (ctx₁, s₁) r grown grown',
                λ nothing.
                    absurd (ground (arith, of_outcome_inversion _ _ _ known, nothing, yes_created)),
              )
          | inr nothing ↦ (
            [],
            subst (IsGrown [] (ctx, s)) (ok-injective (rw nothing at rest)) (none-IsGrown (ctx, s)),
            λ e. refl,
          )
        ]
