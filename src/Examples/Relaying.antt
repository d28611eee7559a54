-- ===== src/Examples/Relaying.antt =====
-- The relay, the delays and the archiver at concrete inputs.
use dev_intel_platform.Base.{All, length, ◌≤◌, ◌≡◌, false, [], suc}
use dev_intel_platform.Base.Int.{pos}
use dev_intel_platform.Json.{Json}
use dev_intel_platform.Backoff.{backoff, intended, backoff_lem}
use dev_intel_platform.Normalizer.{process}
use dev_intel_platform.Relay.{State, batch, drain_batch}
use dev_intel_platform.Relay.Order.{IsOrdered, IsReady, batch-IsOrdered}
use dev_intel_platform.Relay.Passes.{Drained, drain_batch-Drained}
use dev_intel_platform.Examples.{plain_library, span_1, review_message, start_world}

-- The outbox after a delivery, and an empty broker.
abbrev staged : State Json
staged = record { world = (process plain_library span_1 review_message start_world).1; log = [] }

drain_batch-Drained_example :
    Drained
      (λ t. [])
      (batch 10 (λ id. false) staged.world.db)
      staged
      (drain_batch (λ t. []) 10 (λ id. false) staged).0
      (drain_batch (λ t. []) 10 (λ id. false) staged).1
drain_batch-Drained_example = drain_batch-Drained (λ t. []) 10 (λ id. false) staged

backoff_lem_example : backoff (pos (suc 70)) ≡ pos (intended 70)
backoff_lem_example = backoff_lem 70

batch-IsOrdered_example :
    IsOrdered (batch 10 (λ id. false) staged.world.db)
    × All (IsReady (λ id. false)) (batch 10 (λ id. false) staged.world.db)
    × (length (batch 10 (λ id. false) staged.world.db) ≤ 10)
batch-IsOrdered_example = batch-IsOrdered 10 (λ id. false) staged.world.db
