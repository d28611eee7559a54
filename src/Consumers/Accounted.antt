-- ===== src/Consumers/Accounted.antt =====
-- What a consumer loop calls, and with what: the calls of a service are written down as they are made.
use dev_intel_platform.Base.{
  ℕ, suc, ◌+◌, ◌^◌, ◌<◌, ◌≡◌, refl, sym, ◌∙◌, ap, Bool, true, false, List, [], ◌∷◌, ◌++◌, arith,
  subst,
}
use mathlib.Core.List.{append-nil, append_assoc}
use dev_intel_platform.Base.Int.{pos, ◌+ℤ◌, wrap64, wrap64-fits}
use dev_intel_platform.Backoff.{backoff}
use dev_intel_platform.Kafka.{Message}
use dev_intel_platform.Consumers.{
  Fetched, message, broken, cancelled, Verdict, settled, retry, Service, Loop, new_loop,
  next_attempt, committed, put_off, waited_for, handled, run,
}
use dev_intel_platform.Consumers.Calls.{
  Call, on_handle, on_sleep, on_commit, recorded, Due, at_end, at_cancel, no_message, at_success,
  at_failure, at_return, commits_in,
}
use dev_intel_platform.Consumers.Recorded.{run-plain}

plus_one : (n : ℕ) → pos n +ℤ pos 1 ≡ pos (suc n)
unfolding ◌+ℤ◌
plus_one n = ground arith

next_attempt-suc : (n : ℕ) → suc n < 2 ^ 63 → next_attempt (pos n) ≡ pos (suc n)
unfolding next_attempt
next_attempt-suc n h = ap wrap64 (plus_one n) ∙ wrap64-fits (pos (suc n)) (ground arith)

abbrev length : {A : Type 0} → List A → ℕ
length [] = 0
length (x ∷ xs) = suc (length xs)

two_more :
    {A : Type 0} (xs : List A) (a b : A) (ys : List A)
    → ((xs ++ a ∷ []) ++ b ∷ []) ++ ys ≡ xs ++ a ∷ b ∷ ys
two_more xs a b ys = append_assoc (xs ++ a ∷ []) (b ∷ []) ys ∙ append_assoc xs (a ∷ []) (b ∷ ys)

module _ {Bytes S : Type 0} (service : Service Bytes S) where
  abbrev Recording : Type 0
  Recording = Loop Bytes (S × List (Call Bytes))

  -- From one state of the loop to another, these calls were made and were due.
  pub record Accounts (failures : ℕ) (fs : List (Fetched Bytes)) (before after : Recording)
      : Type 0 where
    pub calls : List (Call Bytes)
    pub made : after.state.1 ≡ before.state.1 ++ calls
    pub due : Due failures fs calls
    pub commits : after.commits ≡ commits_in calls before.commits

  abbrev Good : List (Fetched Bytes) → (Recording → Recording) → Type 0
  Good fs rest =
      (k : ℕ) (l : Recording)
      → l.attempt ≡ pos k
      → k + length fs < 2 ^ 63
      → Accounts k fs l (rest l)

  success-Accounts :
      (k : ℕ) (m : Message Bytes) (fs : List (Fetched Bytes)) (l l' after : Recording)
      → l'.state.1 ≡ (l.state.1 ++ on_handle m settled ∷ []) ++ on_commit m ∷ []
      → l'.commits ≡ m ∷ l.commits
      → Accounts 0 fs l' after
      → Accounts k (message m ∷ fs) l after
  success-Accounts k m fs l l' after e c a = record {
    calls = on_handle m settled ∷ on_commit m ∷ a.calls;
    made = a.made ∙ ap (λ xs. xs ++ a.calls) e ∙ two_more l.state.1 _ _ a.calls;
    due = at_success k m fs a.calls a.due;
    commits = a.commits ∙ ap (commits_in a.calls) c;
  }

  failure-Accounts :
      (k : ℕ) (m : Message Bytes) (fs : List (Fetched Bytes)) (l l' after : Recording)
      → l'.state.1
        ≡ (l.state.1 ++ on_handle m retry ∷ []) ++ on_sleep (backoff (pos (suc k))) true ∷ []
      → l'.commits ≡ l.commits
      → Accounts (suc k) fs l' after
      → Accounts k (message m ∷ fs) l after
  failure-Accounts k m fs l l' after e c a = record {
    calls = on_handle m retry ∷ on_sleep (backoff (pos (suc k))) true ∷ a.calls;
    made = a.made ∙ ap (λ xs. xs ++ a.calls) e ∙ two_more l.state.1 _ _ a.calls;
    due = at_failure k m fs a.calls a.due;
    commits = a.commits ∙ ap (commits_in a.calls) c;
  }

  waited_for-Accounts :
      (k : ℕ) (m : Message Bytes) (fs : List (Fetched Bytes)) (rest : Recording → Recording)
      (b : Bool) (s : S) (l l' : Recording)
      → Good fs rest
      → l'.attempt ≡ pos (suc k)
      → l'.commits ≡ l.commits
      → suc k + length fs < 2 ^ 63
      → Accounts k (message m ∷ fs) l (
          waited_for rest
            (
              b,
              (s, (l.state.1 ++ on_handle m retry ∷ []) ++ on_sleep (backoff (pos (suc k))) b ∷ []),
            )
            l')
  unfolding waited_for
  waited_for-Accounts k m fs rest true s l l' g a c h =
      let calls =
        (l.state.1 ++ on_handle m retry ∷ []) ++ on_sleep (backoff (pos (suc k))) true ∷ [] in
      let l'' : Recording = record l' { state = (s, calls) } in
      failure-Accounts k m fs l l'' (rest l'') refl c (g (suc k) l'' a h)
  waited_for-Accounts k m fs rest false s l l' g a c h = record {
    calls = on_handle m retry ∷ on_sleep (backoff (pos (suc k))) false ∷ [];
    made =
        append_assoc l.state.1 (on_handle m retry ∷ [])
          (on_sleep (backoff (pos (suc k))) false ∷ []);
    due = at_return k m fs;
    commits = c;
  }

  handled-Accounts :
      (k : ℕ) (m : Message Bytes) (fs : List (Fetched Bytes)) (rest : Recording → Recording)
      (v : Verdict) (s : S) (l : Recording)
      → Good fs rest
      → l.attempt ≡ pos k
      → suc k + length fs < 2 ^ 63
      → Accounts k
          (message m ∷ fs)
          l
          (handled (recorded service) rest m (v, (s, l.state.1 ++ on_handle m v ∷ [])) l)
  unfolding handled
  handled-Accounts k m fs rest settled s l g a h =
      let l' = committed (recorded service) m (s, l.state.1 ++ on_handle m settled ∷ []) l in
      success-Accounts k m fs l l' (rest l') (unfold committed in refl) (unfold committed in refl)
        (g 0 l' (unfold committed in refl) (ground arith))
  handled-Accounts k m fs rest retry s l g a h =
      let l' = put_off (s, l.state.1 ++ on_handle m retry ∷ []) l in
      let e : l'.attempt ≡ pos (suc k) =
        unfold put_off in ap next_attempt a ∙ next_attempt-suc k (ground arith) in
      let x = service.sleep (backoff l'.attempt) s in
      let d = backoff l'.attempt in
      subst
        (λ n. Accounts k (message m ∷ fs) l (
          waited_for rest
            (x.0, (x.1, (l.state.1 ++ on_handle m retry ∷ []) ++ on_sleep (backoff n) x.0 ∷ []))
            l'))
        (sym e) (waited_for-Accounts k m fs rest x.0 x.1 l l' g e (unfold put_off in refl) h)

  run-Good : (fs : List (Fetched Bytes)) → Good fs (run (recorded service) fs)
  unfolding run
  run-Good [] k l a h = record {
    calls = [];
    made = sym (append-nil l.state.1);
    due = at_end k;
    commits = refl;
  }
  run-Good (message m ∷ fs) k l a h =
      let x = service.handle m l.state.0 in
      handled-Accounts k m fs (run (recorded service) fs) x.0 x.1 l (run-Good fs) a
        (ground (arith, h))
  run-Good (broken ∷ fs) k l a h =
      let r = run-Good fs k l a (ground (arith, h)) in
      record {
        calls = r.calls;
        made = r.made;
        due = no_message k fs r.calls r.due;
        commits = r.commits;
      }
  run-Good (cancelled ∷ fs) k l a h = record {
    calls = [];
    made = sym (append-nil l.state.1);
    due = at_cancel k fs;
    commits = refl;
  }

  -- The calls of a whole run.
  abbrev pub calls_of : List (Fetched Bytes) → S → List (Call Bytes)
  calls_of fs s = (run (recorded service) fs (new_loop (s, []))).state.1

  -- The calls of a run are those that are due, writing them down changes nothing, and the messages
  -- committed are those of the calls.
  pub record IsAccounted (fs : List (Fetched Bytes)) (s : S) : Type 0 where
    pub due : Due 0 fs (calls_of fs s)
    pub state :
        (run (recorded service) fs (new_loop (s, []))).state.0 ≡ (run service fs (new_loop s)).state
    pub commits : (run service fs (new_loop s)).commits ≡ commits_in (calls_of fs s) []

  -- Whatever is fetched, in less than 2 ^ 63 fetches, whatever becomes of the messages and whether or
  -- not the context ends during a wait: the loop handles each message, commits it next where it was
  -- settled, and else does not commit it but waits the k-th retry delay after the k-th failure in a
  -- row, until the context ends; a fetch that failed calls nothing. The service ends in the state in
  -- which it ends where its calls are not written down, and the messages counted as committed are
  -- those of the calls of commit.
  pub run-IsAccounted : (fs : List (Fetched Bytes)) (s : S) → length fs < 2 ^ 63 → IsAccounted fs s
  run-IsAccounted fs s h =
      let r = run-Good fs 0 (new_loop (s, [])) refl (ground (arith, h)) in
      let e = run-plain service fs (new_loop (s, [])) in
      record {
        due = subst (Due 0 fs) (sym r.made) r.due;
        state = ap (λ l. l.state) e;
        commits =
            sym (ap (λ l. l.commits) e) ∙ r.commits ∙ ap (λ cs. commits_in cs []) (sym r.made);
      }
