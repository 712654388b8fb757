-- ===== src/Indexer/Runtime.antt =====
-- The traits `Blockchain`, `RuntimeHostBuilder` and `RuntimeHost` that
-- manager/src/indexer is generic in, and `MappingError` of massbit/src/components/indexer/host.rs.
use test_ci_for_massbitproto.Prelude.{Bool, String, Option, List, ◌≡◌, refl, ap, arith}
use test_ci_for_massbitproto.Prelude.Int.{ℤ}
use test_ci_for_massbitproto.Prelude.Outcome.{Outcome, done, failed, panic}
use test_ci_for_massbitproto.Indexer.BlockState.{Chain, DataSourceTemplateInfo, BlockState}

pub data MappingError : Type 0 where
  possible_reorg : String → MappingError
  unknown : String → MappingError

-- A computation that ends well, with an error of the type `E`, or with a panic, or whose loop needs
-- more rounds than the fuel allows.
pub data Run (E A : Type 0) : Type 0 where
  ok : A → Run E A
  err : E → Run E A
  panicked : Run E A
  unfinished : Run E A

infixl 5 ◌>>=◌
abbrev pub ◌>>=◌ : {E A B : Type 0} → Run E A → (A → Run E B) → Run E B
ok a >>= f = f a
err e >>= f = err e
panicked >>= f = panicked
unfinished >>= f = unfinished

-- `map_err`, and the `?` that converts an error
abbrev pub map_err : {D E A : Type 0} → (D → E) → Run D A → Run E A
map_err f (ok a) = ok a
map_err f (err e) = err (f e)
map_err f panicked = panicked
map_err f unfinished = unfinished

abbrev pub of_outcome : {E A : Type 0} → (String → E) → Outcome A → Run E A
of_outcome f (done a) = ok a
of_outcome f (failed e) = err (f e)
of_outcome f panic = panicked

pub ok-injective : {E A : Type 0} {x y : A} → ◌≡◌ {A = Run E A} (ok x) (ok y) → x ≡ y
ok-injective {E} {A} {x} h = ap (λ r. value r x) h
  where
    value : Run E A → A → A
    value (ok a) d = a
    value r d = d

-- A chain that ends well has ended well in each of its parts.
pub run_inversion :
    {E A B : Type 0} (m : Run E A) (f : A → Run E B) (r : B)
    → (m >>= f) ≡ ok r
    → (a : A) × (m ≡ ok a) × (f a ≡ ok r)
run_inversion (ok a) f r h = (a, refl, h)
run_inversion (err e) f r h = absurd (ground (arith, h))
run_inversion panicked f r h = absurd (ground (arith, h))
run_inversion unfinished f r h = absurd (ground (arith, h))

pub map_err_inversion :
    {D E A : Type 0} (f : D → E) (m : Run D A) (a : A) → map_err f m ≡ ok a → m ≡ ok a
map_err_inversion f (ok b) a h = ap ok (ok-injective h)
map_err_inversion f (err e) a h = absurd (ground (arith, h))
map_err_inversion f panicked a h = absurd (ground (arith, h))
map_err_inversion f unfinished a h = absurd (ground (arith, h))

pub of_outcome_inversion :
    {E A : Type 0} (f : String → E) (m : Outcome A) (a : A) → of_outcome f m ≡ ok a → m ≡ done a
of_outcome_inversion f (done b) a h = ap done (ok-injective h)
of_outcome_inversion f (failed e) a h = absurd (ground (arith, h))
of_outcome_inversion f panic a h = absurd (ground (arith, h))

-- The associated types and the operations of the traits. `build` and `spawn_mapping` have the name of
-- the network, the id of the indexer and the templates of the manifest built in.
pub record Runtime (C : Chain) : Type 1 where
  pub Block : Type 0
  pub BlockPtr : Type 0
  pub TriggerData : Type 0
  pub MappingTrigger : Type 0
  pub TriggerFilter : Type 0
  pub DataSource : Type 0
  pub Host : Type 0
  pub Hash : Type 0
  pub Module : Type 0
  pub Sender : Type 0
  pub hash_discrete : Discrete Hash
  pub ptr : Block → BlockPtr
  pub error_context : TriggerData → String
  -- `anyhow::Error::context`
  pub context : String → String → String
  pub from_data_sources : List DataSource → TriggerFilter
  pub extend : List DataSource → TriggerFilter → TriggerFilter
  pub triggers_in_block : Block → TriggerFilter → Outcome (List TriggerData)
  pub try_from : DataSourceTemplateInfo C → Outcome DataSource
  pub runtime : DataSource → Module
  pub creation_block : DataSource → Option ℤ
  pub as_stored_dynamic_data_source : DataSource → C.env.StoredDataSource
  pub keccak256 : Module → Hash
  pub spawn_mapping : Module → Outcome Sender
  pub build : DataSource → Sender → Outcome Host
  pub host_eq : Host → Host → Bool
  pub creation_block_number : Host → Option ℤ
  pub match_and_decode : Host → TriggerData → Block → Outcome (Option MappingTrigger)
  pub process_mapping_trigger :
      Host → BlockPtr → MappingTrigger → BlockState C → Run MappingError (BlockState C)
