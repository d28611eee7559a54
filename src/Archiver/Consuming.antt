-- ===== src/Archiver/Consuming.antt =====
-- services/archiver/main.go: the archiver as a service of the consumer loop. A message is committed
-- once it is archived.
--
-- The offset that a commit moves is the reader's, and no part of the state here.
pub mod Stored
use dev_intel_platform.Base.{String, Bool}
use dev_intel_platform.Base.Int.{ℤ}
use dev_intel_platform.Json.{Codec}
use dev_intel_platform.Kafka.{Message}
use dev_intel_platform.Tenancy.{Result, ok, err}
use dev_intel_platform.Consumers.{Verdict, settled, retry, Service}
use dev_intel_platform.Archiver.{State, archive}

unfoldable pub judged : {Bytes : Type 0} → Result (Unit {0}) × State Bytes → Verdict × State Bytes
judged (ok _, s) = (settled, s)
judged (err e, s) = (retry, s)

module _ {Bytes : Type 0} (codec : Codec Bytes) (date : State Bytes → String)
    (sleep : ℤ → State Bytes → Bool × State Bytes) where
  unfoldable pub archiver : Service Bytes (State Bytes)
  unfolding judged
  archiver = record {
    handle = λ msg s. judged (archive codec msg (date s) s);
    sleep = sleep;
    commit = λ msg s. s;
  }
