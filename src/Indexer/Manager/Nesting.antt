-- ===== src/Indexer/Manager/Nesting.antt =====
-- The end of the loop of `process_block` in manager/src/indexer/instance_manager.rs, where templates are
-- nested to some depth.
use test_ci_for_massbitproto.Prelude.{
  ℕ, ◌≤◌, ◌<◌, false, Option, none, some, List, [], ◌∷◌, ◌≡◌, refl, String, All,
}
use test_ci_for_massbitproto.Prelude.Outcome.{Outcome}
use test_ci_for_massbitproto.Indexer.BlockState.{Chain, BlockState, DataSourceTemplateInfo}
use test_ci_for_massbitproto.Indexer.Runtime.{
  Runtime, MappingError, Run, ok, err, panicked, unfinished, ◌>>=◌, map_err, of_outcome,
}
use test_ci_for_massbitproto.Indexer.Instance.{IndexerInstance}
use test_ci_for_massbitproto.Indexer.Manager.Triggers.{
  process_decoded, process_trigger_in_runtime_hosts, process_trigger, process_triggers, explain,
}
use test_ci_for_massbitproto.Indexer.Manager.{as_unknown, process_in_new_hosts}

-- A run that had enough fuel, with what holds of its value.
abbrev pub Ends : {E A : Type 0} → (A → Type 0) → Run E A → Type 0
Ends P (ok a) = P a
Ends P (err e) = Unit
Ends P panicked = Unit
Ends P unfinished = ⊥

pub bind-Ends :
    {E A B : Type 0} (P : A → Type 0) (Q : B → Type 0) (m : Run E A) (f : A → Run E B)
    → Ends P m
    → ((a : A) → P a → Ends Q (f a))
    → Ends Q (m >>= f)
bind-Ends P Q (ok a) f h k = k a h
bind-Ends P Q (err e) f h k = tt
bind-Ends P Q panicked f h k = tt
bind-Ends P Q unfinished f h k = absurd h

pub map_err-Ends :
    {D E A : Type 0} (P : A → Type 0) (g : D → E) (m : Run D A) → Ends P m → Ends P (map_err g m)
map_err-Ends P g (ok a) h = h
map_err-Ends P g (err e) h = tt
map_err-Ends P g panicked h = tt
map_err-Ends P g unfinished h = absurd h

pub bind_outcome-Ends :
    {E A B : Type 0} (Q : B → Type 0) (g : String → E) (o : Outcome A) (f : A → Run E B)
    → ((a : A) → o ≡ Outcome.done a → Ends Q (f a))
    → Ends Q (of_outcome g o >>= f)
bind_outcome-Ends Q g (Outcome.done a) f h = h a refl
bind_outcome-Ends Q g (Outcome.failed e) f h = tt
bind_outcome-Ends Q g Outcome.panic f h = tt

module _ {C : Chain} (R : Runtime C) (nesting : DataSourceTemplateInfo C → ℕ)
    (host_nesting : R.Host → ℕ) where
  -- outside of handlers, the data sources that were created are nested less than `n` deep
  abbrev pub Within : ℕ → BlockState C → Type 0
  Within n s = All (λ info. nesting info < n) s.created_data_sources × (s.in_handler ≡ false)

  -- the handlers of the hosts create data sources that are nested less than `n` deep
  abbrev pub HostsWithin : ℕ → List R.Host → Type 0
  HostsWithin n hosts = All (λ host. host_nesting host ≤ n) hosts

  module _
      (builds : (info : DataSourceTemplateInfo C) (ds : R.DataSource) (sender : R.Sender)
          (host : R.Host)
        → R.try_from info ≡ Outcome.done ds
        → R.build ds sender ≡ Outcome.done host
        → host_nesting host ≤ nesting info)
      (creates : (n : ℕ) (host : R.Host) (ptr : R.BlockPtr) (trigger : R.MappingTrigger)
          (s : BlockState C)
        → host_nesting host ≤ n
        → Within n s
        → Ends (Within n) (R.process_mapping_trigger host ptr trigger s)) where
    hosts-Ends :
        (n : ℕ) (hosts : List R.Host) (block : R.Block) (trigger : R.TriggerData) (s : BlockState C)
        → HostsWithin n hosts
        → Within n s
        → Ends (Within n) (process_trigger_in_runtime_hosts R hosts block trigger s)
    unfolding process_trigger_in_runtime_hosts process_decoded
    hosts-Ends n [] block trigger s hs w = w
    hosts-Ends n (host ∷ hosts) block trigger s (h, hs) w =
        bind_outcome-Ends (Within n) MappingError.unknown (R.match_and_decode host trigger block) _
          (λ decoded e.
            bind-Ends (Within n) _ (process_decoded R host block decoded s) _ (decoded-Ends decoded)
              (λ s' w'. hosts-Ends n hosts block trigger s' hs w'))
      where
        decoded-Ends :
            (decoded : Option R.MappingTrigger)
            → Ends (Within n) (process_decoded R host block decoded s)
        decoded-Ends none = w
        decoded-Ends (some t) = creates n host (R.ptr block) t s h w

    pub triggers-Ends :
        (n : ℕ) (this : IndexerInstance R) (block : R.Block) (triggers : List R.TriggerData)
        (s : BlockState C)
        → HostsWithin n this.hosts
        → Within n s
        → Ends (Within n) (process_triggers R this block triggers s)
    unfolding process_triggers process_trigger
    triggers-Ends n this block [] s hs w = w
    triggers-Ends n this block (t ∷ triggers) s hs w =
        bind-Ends (Within n) _ (map_err (explain R t) (process_trigger R this block t s)) _
          (map_err-Ends (Within n) (explain R t) (process_trigger R this block t s)
            (hosts-Ends n this.hosts block t s hs w))
          (λ s' w'. triggers-Ends n this block triggers s' hs w')

    pub new_hosts-Ends :
        (n : ℕ) (hosts : List R.Host) (block : R.Block) (triggers : List R.TriggerData)
        (s : BlockState C)
        → HostsWithin n hosts
        → Within n s
        → Ends (Within n) (process_in_new_hosts R hosts block triggers s)
    unfolding process_in_new_hosts
    new_hosts-Ends n hosts block [] s hs w = w
    new_hosts-Ends n hosts block (t ∷ triggers) s hs w =
        let run = process_trigger_in_runtime_hosts R hosts block t s in
        bind-Ends (Within n) _ (map_err as_unknown run) _
          (map_err-Ends (Within n) as_unknown run (hosts-Ends n hosts block t s hs w))
          (λ s' w'. new_hosts-Ends n hosts block triggers s' hs w')
