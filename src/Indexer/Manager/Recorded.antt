-- ===== src/Indexer/Manager/Recorded.antt =====
-- What `process_block` of manager/src/indexer/instance_manager.rs records of the data sources that are
-- created in a block.
use test_ci_for_massbitproto.Prelude.{
  Option, none, some, List, [], ◌∷◌, ◌++◌, ◌≡◌, inl, inr, sym, ap, ◌∙◌, subst, arith, append_nil,
  append_one,
}
use test_ci_for_massbitproto.Prelude.Outcome.{done, done-injective, bind_inversion}
use test_ci_for_massbitproto.Indexer.BlockState.{Chain, DataSourceTemplateInfo}
use test_ci_for_massbitproto.Indexer.Runtime.{Runtime}
use test_ci_for_massbitproto.Indexer.Instance.{IndexerInstance, add_dynamic_data_source}
use test_ci_for_massbitproto.Indexer.Instance.Order.{IsAdded, add_dynamic_data_source-IsAdded}
use test_ci_for_massbitproto.Indexer.Manager.Sources.{push_created, create_dynamic_data_sources}

module _ {C : Chain} (R : Runtime C) where
  -- the hosts are built for the data sources, each with some channel
  abbrev pub AreBuilt : List R.DataSource → List R.Host → Type 0
  AreBuilt [] [] = Unit
  AreBuilt (ds ∷ data_sources) (host ∷ hosts) =
      ((sender : R.Sender) × (R.build ds sender ≡ done host)) × AreBuilt data_sources hosts
  AreBuilt data_sources hosts = ⊥

  pub append-AreBuilt :
      (ds es : List R.DataSource) (hs ks : List R.Host)
      → AreBuilt ds hs
      → AreBuilt es ks
      → AreBuilt (ds ++ es) (hs ++ ks)
  append-AreBuilt [] es [] ks b c = c
  append-AreBuilt (d ∷ ds) es (h ∷ hs) ks (b, bs) c = (b, append-AreBuilt ds es hs ks bs c)
  append-AreBuilt [] es (h ∷ hs) ks b c = absurd b
  append-AreBuilt (d ∷ ds) es [] ks b c = absurd b

  abbrev IsCreated :
      IndexerInstance R → IndexerInstance R × List R.DataSource × List R.Host → Type 0
  IsCreated this (this', data_sources, hosts) =
      (this'.hosts ≡ this.hosts ++ hosts) × AreBuilt data_sources hosts

  push_created-IsCreated :
      (added : Option R.Host) (ds : R.DataSource) (this this₁ this₂ : IndexerInstance R)
      (sources : List R.DataSource) (new : List R.Host)
      → IsAdded R ds this (added, this₁)
      → IsCreated this₁ (this₂, sources, new)
      → IsCreated this (push_created R added ds (this₂, sources, new))
  unfolding push_created
  push_created-IsCreated none ds this this₁ this₂ sources new (inl (nothing, same)) (more, built) =
      (more ∙ ap (λ l. l ++ new) same, built)
  push_created-IsCreated none ds this this₁ this₂ sources new
        (inr (host, given, fresh, behind, sender, from)) created =
      absurd (ground (arith, given))
  push_created-IsCreated (some k) ds this this₁ this₂ sources new (inl (nothing, same)) created =
      absurd (ground (arith, nothing))
  push_created-IsCreated (some k) ds this this₁ this₂ sources new
        (inr (host, given, fresh, behind, sender, from)) (more, built) =
      let same : host ≡ k = ground (arith, given) in
      (
        more
            ∙ ap (λ l. l ++ new) behind
            ∙ append_one this.hosts host new
            ∙ ap (λ (h : R.Host). this.hosts ++ h ∷ new) same,
        ((sender, from ∙ ap done same), built),
      )

  -- The hosts of the data sources that are returned go behind those of the instance.
  pub create_dynamic_data_sources_lem :
      (infos : List (DataSourceTemplateInfo C)) (this this' : IndexerInstance R)
      (data_sources : List R.DataSource) (hosts : List R.Host)
      → create_dynamic_data_sources R infos this ≡ done (this', data_sources, hosts)
      → (this'.hosts ≡ this.hosts ++ hosts) × AreBuilt data_sources hosts
  unfolding create_dynamic_data_sources push_created
  create_dynamic_data_sources_lem [] this this' data_sources hosts h =
      subst
        (λ (r : IndexerInstance R × List R.DataSource × List R.Host).
          (r.0.hosts ≡ this.hosts ++ r.2) × AreBuilt r.1 r.2)
        (done-injective h) (sym (append_nil this.hosts), tt)
  create_dynamic_data_sources_lem (info ∷ infos) this this' data_sources hosts h =
      let (ds, made, h₁) = bind_inversion (R.try_from info) _ (this', data_sources, hosts) h in
      let ((added, this₁), adds, h₂) =
        bind_inversion (add_dynamic_data_source R ds this) _ (this', data_sources, hosts) h₁ in
      let ((this₂, sources, new), creates, last) =
        bind_inversion (create_dynamic_data_sources R infos this₁) _ (this', data_sources, hosts)
          h₂ in
      let (late, is_added) = add_dynamic_data_source-IsAdded R ds this this₁ added adds in
      subst (IsCreated this) (done-injective last) (
        push_created-IsCreated added ds this this₁ this₂ sources new is_added
          (create_dynamic_data_sources_lem infos this₁ this₂ sources new creates))
