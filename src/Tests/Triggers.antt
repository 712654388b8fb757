-- ===== src/Tests/Triggers.antt =====
-- The order of three triggers of a block.
use test_ci_for_massbitproto.Prelude.{ℕ, true, some, [], ◌≡◌, refl}
use test_ci_for_massbitproto.Ethereum.Trigger.{
  EthereumTrigger, Log, cmp, not_after, reversed, cmp_trans, cmp-reversed,
}
use test_ci_for_massbitproto.Tests.Filters.{W, short_call}

-- three triggers of a block whose logs 0 and 1 are of its transactions 0 and 1
abbrev a_log : ℕ → Log W
a_log i = record {
  address = 1;
  topics = [];
  block_number = some 100;
  block_hash = some 5;
  transaction_hash = some 6;
  log_index = some i;
  transaction_index = some i;
}

abbrev log_0 : EthereumTrigger W
log_0 = EthereumTrigger.log (a_log 0)

abbrev log_1 : EthereumTrigger W
log_1 = EthereumTrigger.log (a_log 1)

abbrev call_0 : EthereumTrigger W
call_0 = EthereumTrigger.call short_call

order_run : Unit {0}
unfolding cmp
order_run = tt

log_0_first : not_after (cmp log_0 call_0) ≡ true
unfolding order_run
log_0_first = refl

call_0_next : not_after (cmp call_0 log_1) ≡ true
unfolding order_run
call_0_next = refl

cmp_trans_example : not_after (cmp log_0 log_1) ≡ true
cmp_trans_example =
    cmp_trans (λ i. i) (λ i j h. h) log_0 call_0 log_1 (0, refl, refl) tt (1, refl, refl)
      log_0_first call_0_next

cmp-reversed_example : cmp call_0 log_0 ≡ reversed (cmp log_0 call_0)
cmp-reversed_example = cmp-reversed log_0 call_0
