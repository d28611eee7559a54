-- ===== src/Enrichment/Consuming.antt =====
-- services/connector-github/main.go: the connector as a service of the consumer loop. A message is
-- committed once it was written to the enriched topic.
--
-- The offset that a commit moves is the reader's, and no part of the state here.
use dev_intel_platform.Base.{String, Bool, List, [], ◌∷◌, ◌++◌, Option}
use dev_intel_platform.Base.Int.{ℤ}
use dev_intel_platform.Json.{Codec}
use dev_intel_platform.Kafka.{Headers, Message}
use dev_intel_platform.Tenancy.{Call, done, refused, lost}
use dev_intel_platform.Consumers.{Verdict, settled, retry, Service}
use dev_intel_platform.Enrichment.{Client, process_enrichment}

-- The state of the client, the enriched topic, and the fates of the writes to it that are to come.
pub record Station (Bytes S : Type 0) : Type 0 where
  pub outer : S
  pub topic : List (Message Bytes)
  pub writes : List Call

module _ {Bytes S : Type 0} where
  -- The write of a message; where its answer is lost, the message is there all the same.
  unfoldable pub written :
      Message Bytes → S → List (Message Bytes) → List Call → Verdict × Station Bytes S
  written m s topic [] = (settled, record { outer = s; topic = topic ++ m ∷ []; writes = [] })
  written m s topic (done ∷ cs) =
      (settled, record { outer = s; topic = topic ++ m ∷ []; writes = cs })
  written m s topic (refused ∷ cs) = (retry, record { outer = s; topic = topic; writes = cs })
  written m s topic (lost ∷ cs) =
      (retry, record { outer = s; topic = topic ++ m ∷ []; writes = cs })

module _ {Bytes S : Type 0} (codec : Codec Bytes) (client : Option (Client S))
    (fetch_patches : Bool) (patch_max_bytes : ℤ) (inject : Headers → Headers) (format : ℤ → String)
    (sleep : ℤ → Station Bytes S → Bool × Station Bytes S) where
  unfoldable pub connector : Service Bytes (Station Bytes S)
  unfolding process_enrichment written
  connector = record {
    handle = λ msg st.
        let (m, s) =
          process_enrichment codec client fetch_patches patch_max_bytes inject format msg
            st.outer in
        written m s st.topic st.writes;
    sleep = sleep;
    commit = λ msg s. s;
  }
