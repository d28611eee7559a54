-- ===== src/Consumers/Calls.antt =====
-- The calls that a consumer loop makes of its service: how they are written down, and which are due.
use dev_intel_platform.Base.{ℕ, suc, Bool, true, false, List, [], ◌∷◌, ◌++◌}
use dev_intel_platform.Base.Int.{ℤ, pos}
use dev_intel_platform.Backoff.{backoff}
use dev_intel_platform.Kafka.{Message}
use dev_intel_platform.Consumers.{
  Fetched, message, broken, cancelled, Verdict, settled, retry, Service,
}

-- A call of a service, with what it returned.
pub data Call (Bytes : Type 0) : Type 0 where
  on_handle : Message Bytes → Verdict → Call Bytes
  on_sleep : ℤ → Bool → Call Bytes
  on_commit : Message Bytes → Call Bytes

-- A service that writes down its calls, the newest last, and otherwise does the same.
abbrev pub recorded : {Bytes S : Type 0} → Service Bytes S → Service Bytes (S × List (Call Bytes))
recorded service = record {
  handle =
      λ m (s, calls). let x = service.handle m s in (x.0, (x.1, calls ++ on_handle m x.0 ∷ []));
  sleep = λ d (s, calls). let x = service.sleep d s in (x.0, (x.1, calls ++ on_sleep d x.0 ∷ []));
  commit = λ m (s, calls). (service.commit m s, calls ++ on_commit m ∷ []);
}

-- The calls that are due for what is fetched, after some failures in a row: each message is handled;
-- it is committed where it is settled, and then there are no failures; else, after the k-th failure in
-- a row, the loop waits the k-th retry delay, and returns where the context ended meanwhile.
pub data Due {Bytes : Type 0} : ℕ → List (Fetched Bytes) → List (Call Bytes) → Type 0 where
  at_end : (k : ℕ) → Due k [] []
  at_cancel : (k : ℕ) (fs : List (Fetched Bytes)) → Due k (cancelled ∷ fs) []
  no_message :
      (k : ℕ) (fs : List (Fetched Bytes)) (cs : List (Call Bytes))
      → Due k fs cs
      → Due k (broken ∷ fs) cs
  at_success :
      (k : ℕ) (m : Message Bytes) (fs : List (Fetched Bytes)) (cs : List (Call Bytes))
      → Due 0 fs cs
      → Due k (message m ∷ fs) (on_handle m settled ∷ on_commit m ∷ cs)
  at_failure :
      (k : ℕ) (m : Message Bytes) (fs : List (Fetched Bytes)) (cs : List (Call Bytes))
      → Due (suc k) fs cs
      → Due k (message m ∷ fs) (on_handle m retry ∷ on_sleep (backoff (pos (suc k))) true ∷ cs)
  at_return :
      (k : ℕ) (m : Message Bytes) (fs : List (Fetched Bytes))
      → Due k (message m ∷ fs) (on_handle m retry ∷ on_sleep (backoff (pos (suc k))) false ∷ [])

-- The messages of the commits among the calls, the newest first, before older ones.
abbrev pub commits_in :
    {Bytes : Type 0} → List (Call Bytes) → List (Message Bytes) → List (Message Bytes)
commits_in [] ms = ms
commits_in (on_commit m ∷ cs) ms = commits_in cs (m ∷ ms)
commits_in (on_handle m v ∷ cs) ms = commits_in cs ms
commits_in (on_sleep d b ∷ cs) ms = commits_in cs ms
