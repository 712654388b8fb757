-- ===== src/Tests/Indexing.antt =====
-- An indexer with a factory, whose handler creates a data source, while it processes a block.
use test_ci_for_massbitproto.Prelude.{
  ℕ, true, false, String, Option, none, some, List, [], ◌∷◌, ◌++◌, map, ite, ◌≡◌, ◌⊎◌, refl, sym,
  ap, subst, ◌∙◌, text_discrete, All, ◌≤◌, ◌<◌, arith,
}
use test_ci_for_massbitproto.Prelude.Int.{ℤ, pos}
use test_ci_for_massbitproto.Prelude.HashMap
use test_ci_for_massbitproto.Prelude.Outcome.{Outcome, done-injective}
use test_ci_for_massbitproto.LfuCache.Ops as Lfu
use test_ci_for_massbitproto.EntityCache.State.{types}
use test_ci_for_massbitproto.EntityCache.Ops as Cache
use test_ci_for_massbitproto.EntityCache.Modifications as Mods
use test_ci_for_massbitproto.Indexer.BlockState as State
use test_ci_for_massbitproto.Indexer.BlockState.{BlockState, DataSourceTemplateInfo}
use test_ci_for_massbitproto.Indexer.Runtime.{Runtime, ok, unfinished, ok-injective}
use test_ci_for_massbitproto.Indexer.Instance as Inst
use test_ci_for_massbitproto.Indexer.Instance.{IndexerInstance}
use test_ci_for_massbitproto.Indexer.Instance.Order.{IsOrdered, add_dynamic_data_source-IsOrdered}
use test_ci_for_massbitproto.Indexer.Manager.Triggers as Triggers
use test_ci_for_massbitproto.Indexer.Manager.Sources as Sources
use test_ci_for_massbitproto.Indexer.Manager as Manager
use test_ci_for_massbitproto.Indexer.Manager.{IndexingState, Transaction, Processed, process_block}
use test_ci_for_massbitproto.Indexer.Manager.Recorded.{AreBuilt}
use test_ci_for_massbitproto.Indexer.Manager.Loop.{joined, extended}
use test_ci_for_massbitproto.Indexer.Manager.Blocks.{process_block_lem}
use test_ci_for_massbitproto.Indexer.Manager.Nesting.{Within}
use test_ci_for_massbitproto.Indexer.Manager.Termination.{process_block-not-unfinished}
use test_ci_for_massbitproto.Indexer.Run as Run
use test_ci_for_massbitproto.Indexer.Run.{Event, Inputs, Indexing, run_indexer}
use test_ci_for_massbitproto.Indexer.Run.Streams.{run_indexer_lem}
use test_ci_for_massbitproto.Tests.Entities.{E}
use test_ci_for_massbitproto.Tests.Blocks.{C, pair_template}

-- the handler of the factory creates a pair
abbrev handle : String → BlockState C → BlockState C
handle name s =
    ite (text_discrete name "Factory")
      (record s { created_data_sources = s.created_data_sources ++ pair_template ∷ [] }) s

abbrev R : Runtime C
R = record {
  Block = ℕ;
  BlockPtr = ℕ;
  TriggerData = String;
  MappingTrigger = String;
  TriggerFilter = List String;
  DataSource = String × Option ℤ;
  Host = String × Option ℤ;
  Hash = String;
  Module = String;
  Sender = String;
  hash_discrete = text_discrete;
  ptr = λ b. b;
  error_context = λ t. t;
  context = λ s e. s;
  from_data_sources = λ l. map (λ (d : String × Option ℤ). d.0) l;
  extend = λ l filter. filter ++ map (λ (d : String × Option ℤ). d.0) l;
  triggers_in_block = λ b filter. Outcome.done ("Sync" ∷ []);
  try_from = λ info. Outcome.done (info.template, some info.creation_block);
  runtime = λ d. d.0;
  creation_block = λ d. d.1;
  as_stored_dynamic_data_source = λ d. d.0;
  keccak256 = λ m. m;
  spawn_mapping = λ m. Outcome.done m;
  build = λ d sender. Outcome.done d;
  host_eq = λ a b. ite (text_discrete a.0 b.0) true false;
  creation_block_number = λ h. h.1;
  match_and_decode = λ h t b. Outcome.done (some t);
  process_mapping_trigger = λ h ptr t s. ok (handle h.0 s);
}

abbrev instance' : IndexerInstance R
instance' = record { hosts = ("Factory", none) ∷ []; module_cache = HashMap.new text_discrete }

abbrev ctx : IndexingState R
ctx = record {
  instance = instance';
  filter = "Factory" ∷ [];
  entity_lfu_cache = Lfu.new (types E) E.queue;
}

abbrev transact : Transaction R → Outcome (Unit {0})
transact t = Outcome.done tt

abbrev result : Processed R
result = record {
  state = record {
    instance = record {
      hosts = ("Factory", none) ∷ ("Pair", some (pos 7)) ∷ [];
      module_cache = HashMap.insert text_discrete "Pair" "Pair" (HashMap.new text_discrete);
    };
    filter = "Factory" ∷ "Pair" ∷ [];
    entity_lfu_cache = Lfu.new (types E) E.queue;
  };
  needs_restart = true;
  written = some (record { block_ptr = 7; mods = []; data_sources = "Pair" ∷ [] });
}

program : Unit {0}
unfolding process_block State.new Cache.with_current Triggers.process_triggers
    Triggers.process_trigger Triggers.process_trigger_in_runtime_hosts Triggers.process_decoded
    Manager.after_triggers State.has_created_data_sources Manager.process_all_created
    Manager.process_created State.drain_created_data_sources Sources.create_dynamic_data_sources
    Sources.push_created Inst.add_dynamic_data_source Inst.new_host Inst.mapping_request_sender
    Inst.spawn Inst.last_creation_block Inst.contains Manager.persist_dynamic_data_sources
    Manager.add_data_sources Cache.add_data_source Manager.process_in_new_hosts Manager.finish_block
    Manager.write_block Mods.as_modifications Mods.fetch_missing Mods.missing_keys
    Mods.group_missing Mods.fetch Mods.modify_all HashMap.get HashMap.insert HashMap.new
    HashMap.lookup HashMap.keys text_discrete Lfu.new Lfu.evict Lfu.evict_with_period Lfu.len
    Lfu.is_empty
program = tt

adds :
    Inst.add_dynamic_data_source R ("Pair", some (pos 7)) instance'
    ≡ Outcome.done (some ("Pair", some (pos 7)), result.state.instance)
unfolding program
adds = refl

handle_keeps :
    (name : String) (s : BlockState C)
    → s.entity_cache.data_sources ≡ (handle name s).entity_cache.data_sources
handle_keeps name s =
    elim (text_discrete name "Factory")
      as (λ d.
        s.entity_cache.data_sources
        ≡ (ite d (record s { created_data_sources = s.created_data_sources ++ pair_template ∷ [] })
            s).entity_cache.data_sources) [ yes e ↦ refl | no ne ↦ refl ]

processes : process_block R 1000 transact 2 false 7 ("Create" ∷ []) ctx ≡ ok result
unfolding program
processes = refl

process_block_lem_example :
    ((result.written ≡ none)
      × (result.needs_restart ≡ true)
      × (result.state.instance ≡ ctx.instance)
      × (result.state.filter ≡ ctx.filter))
    ⊎ ((t : Transaction R) × (result.written ≡ some t)
        × (t.block_ptr ≡ 7)
        × (false ≡ false)
        × (transact t ≡ Outcome.done tt)
        × (batches : List (List (String × Option ℤ))) × (new : List (String × Option ℤ))
        × (result.state.instance.hosts ≡ ctx.instance.hosts ++ new)
        × AreBuilt R (joined batches) new
        × (t.data_sources ≡ map R.as_stored_dynamic_data_source (joined batches))
        × (result.state.filter ≡ extended R batches ctx.filter)
        × (result.needs_restart ≡ false → batches ≡ []))
process_block_lem_example =
    process_block_lem R 1000 transact
      (λ host ptr trigger s s' h. sym (
        handle_keeps host.0 s
        ∙ ap (λ (b : BlockState C). b.entity_cache.data_sources) (ok-injective h)))
      2 false 7 ("Create" ∷ []) ctx result processes

add_dynamic_data_source-IsOrdered_example :
    IsOrdered R result.state.instance.hosts
    × (((◌≡◌ {A = Option (String × Option ℤ)} (some ("Pair", some (pos 7))) none)
          × (result.state.instance.hosts ≡ instance'.hosts))
        ⊎ ((host : String × Option ℤ) × (some ("Pair", some (pos 7)) ≡ some host)
            × (Inst.contains R instance'.hosts host ≡ false)
            × (result.state.instance.hosts ≡ instance'.hosts ++ host ∷ [])))
add_dynamic_data_source-IsOrdered_example =
    add_dynamic_data_source-IsOrdered R
      (λ ds sender host h. ap (λ (d : String × Option ℤ). d.1) (sym (done-injective h)))
      ("Pair", some (pos 7)) instance' result.state.instance (some ("Pair", some (pos 7))) tt adds

-- a factory creates pairs, which create nothing
abbrev depth : String → ℕ
depth name = ite (text_discrete name "Factory") 1 0

pair-lt : (n : ℕ) → 1 ≤ n → depth "Pair" < n
unfolding text_discrete
pair-lt n h = h

one_more :
    (n : ℕ) (infos : List (DataSourceTemplateInfo C))
    → All (λ (i : DataSourceTemplateInfo C). depth i.template < n) infos
    → 1 ≤ n
    → All (λ (i : DataSourceTemplateInfo C). depth i.template < n) (infos ++ pair_template ∷ [])
one_more n [] small h = (pair-lt n h, tt)
one_more n (i ∷ infos) (first, rest) h = (first, one_more n infos rest h)

handled-Within :
    (n : ℕ) (name : String) (s : BlockState C) (d : Dec (name ≡ "Factory"))
    → ite d 1 0 ≤ n
    → Within R (λ i. depth i.template) (λ h. depth h.0) n s
    → Within R
        (λ i. depth i.template)
        (λ h. depth h.0)
        n
        (ite d (record s { created_data_sources = s.created_data_sources ++ pair_template ∷ [] }) s)
handled-Within n name s (yes e) low (small, out) =
    (one_more n s.created_data_sources small low, out)
handled-Within n name s (no ne) low within = within

factory-le : depth "Factory" ≤ 1
unfolding text_discrete
factory-le = omega arith

process_block-not-unfinished_example :
    ¬ (process_block R 1000 transact 1 false 7 ("Create" ∷ []) ctx ≡ unfinished)
process_block-not-unfinished_example =
    process_block-not-unfinished R (λ i. depth i.template) (λ h. depth h.0)
      (λ info ds sender host made built.
        subst (λ t. depth t ≤ depth info.template)
          (ap (λ (d : String × Option ℤ). d.0) (done-injective made)
            ∙ ap (λ (d : String × Option ℤ). d.0) (done-injective built))
          (omega arith))
      (λ n host ptr trigger s low w.
        handled-Within n host.0 s (text_discrete host.0 "Factory") low w)
      1000 transact 1 false 7 ("Create" ∷ []) ctx (factory-le, tt)

-- a stream is known by its start and its filter
abbrev inputs : Inputs R
inputs = record {
  BlockStream = ℤ × List String;
  entity_cache_size = 1000;
  transact_block_operations = transact;
  block_ptr =
      λ written. Outcome.done (elim written [ [] ↦ none | t ∷ ts ↦ some (pos t.block_ptr) ]);
  message = λ e. "failed";
  new_block_stream = λ from filter. Outcome.done (from, filter);
}

abbrev events : List (Event R)
events = Event.stream_error "timeout" ∷ Event.process 7 ("Create" ∷ []) false ∷ []

abbrev indexing : Indexing inputs
indexing = record {
  ctx = result.state;
  block_stream = (pos 7, "Factory" ∷ "Pair" ∷ []);
  is_registered = true;
  written = record { block_ptr = 7; mods = []; data_sources = "Pair" ∷ [] } ∷ [];
}

runs : run_indexer inputs 2 events ctx ≡ ok (some indexing)
unfolding program run_indexer Run.start Run.number_of Run.with_transaction Run.continue Run.on_event
    Run.on_events Run.end Run.stop_of
runs = refl

run_indexer_lem_example :
    (from : ℤ) × (Outcome.done (from, indexing.ctx.filter) ≡ Outcome.done indexing.block_stream)
run_indexer_lem_example =
    run_indexer_lem inputs
      (λ host ptr trigger s s' h. sym (
        handle_keeps host.0 s
        ∙ ap (λ (b : BlockState C). b.entity_cache.data_sources) (ok-injective h)))
      2 events ctx indexing runs
