-- ===== src/Tests/Waits.antt =====
-- A batch that waits, with another thread that does nothing.
use omni_mailbox.Base.{◌+◌, arith}
use omni_mailbox.Spin.Rounds.{Met, MetLate}
use omni_mailbox.Blocking.Spinning.{has_message}
use omni_mailbox.Blocking.Collect.{batch_pop_within}
use omni_mailbox.Blocking.Collect.Within.{WithinReturned, batch_pop_within_returns}
use omni_mailbox.Tests.Fixtures.{reader, wrapped-IsValid}

batch_pop_within_returns_example :
    WithinReturned
      (λ t q. q)
      1
      (Met (λ t q. q) has_message reader.queue)
      (MetLate (λ t q. q) has_message reader.queue (λ t. t + 7) 10)
      (batch_pop_within (λ t q. q) (λ t q. q) (λ t. t + 7) 7 3 4 2 reader)
batch_pop_within_returns_example =
    batch_pop_within_returns (λ t q. q) (λ t q. q) (λ t. t + 7) (λ t q v. v) (λ t q v. v) 7 3 3 2
      reader wrapped-IsValid (omega arith) (omega arith) (omega arith) (λ t h. omega arith)
