-- ===== src/Normalizer/Consuming.antt =====
-- services/normalizer/main.go: the normalizer as a service of the consumer loop. A message that can
-- never succeed goes to the dead-letter topic, and is committed once it is there.
--
-- The offset that a commit moves is the reader's, and no part of the state here.
pub mod Committed
use dev_intel_platform.Base.{Bool, List, [], ◌∷◌, ◌++◌}
use dev_intel_platform.Base.Int.{ℤ}
use dev_intel_platform.Kafka.{Message}
use dev_intel_platform.Tenancy.{Call, done, refused, lost, permanent, Result, ok, err, World}
use dev_intel_platform.Consumers.{Verdict, settled, retry, Service}
use dev_intel_platform.Normalizer.{Library, Span, process, dead_letter}

-- The database, the dead-letter topic, and the fates of the writes to it that are to come.
pub record Station (Bytes : Type 0) : Type 0 where
  pub world : World Bytes
  pub parked : List (Message Bytes)
  pub writes : List Call

abbrev pub next_write : List Call → Call × List Call
next_write [] = (done, [])
next_write (c ∷ cs) = (c, cs)

module _ {Bytes : Type 0} where
  -- The write to the dead-letter topic; where its answer is lost, the message is there all the same.
  unfoldable pub park : Message Bytes → Call × List Call → Station Bytes → Verdict × Station Bytes
  park dead (done, cs) s = (settled, record s { parked = s.parked ++ dead ∷ []; writes = cs })
  park dead (refused, cs) s = (retry, record s { writes = cs })
  park dead (lost, cs) s = (retry, record s { parked = s.parked ++ dead ∷ []; writes = cs })

  -- The cases of the loop on what `process` returned.
  unfoldable pub judged :
      Message Bytes → Station Bytes → Result (Unit {0}) × World Bytes → Verdict × Station Bytes
  unfolding park
  judged msg s (ok _, w) = (settled, record s { world = w })
  judged msg s (err (permanent cause), w) =
      park (dead_letter msg cause) (next_write s.writes) (record s { world = w })
  judged msg s (err e, w) = (retry, record s { world = w })

module _ {Bytes : Type 0} (lib : Library Bytes) (span : Message Bytes → Span)
    (sleep : ℤ → Station Bytes → Bool × Station Bytes) where
  unfoldable pub normalizer : Service Bytes (Station Bytes)
  unfolding judged
  normalizer = record {
    handle = λ msg s. judged msg s (process lib (span msg) msg s.world);
    sleep = sleep;
    commit = λ msg s. s;
  }

-- What becomes of a message whose payload is no event, whatever the fate of the write is.
pub data Parked {Bytes : Type 0} (dead : Message Bytes) (s : Station Bytes)
    : Verdict → Station Bytes → Type 0 where
  written :
      (cs : List Call)
      → Parked dead s settled (record s { parked = s.parked ++ dead ∷ []; writes = cs })
  not_written : (cs : List Call) → Parked dead s retry (record s { writes = cs })
  unheard :
      (cs : List Call)
      → Parked dead s retry (record s { parked = s.parked ++ dead ∷ []; writes = cs })
