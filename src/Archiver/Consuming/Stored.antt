-- ===== src/Archiver/Consuming/Stored.antt =====
-- What the archiver has committed is archived.
use dev_intel_platform.Base.{
  String, ◌≡◌, refl, sym, ◌∙◌, ap, subst, Bool, true, false, List, [], ◌∷◌, ◌++◌, Option, none,
  some, All, ◌==◌, eq_refl, if◌then◌else◌, arith,
}
use dev_intel_platform.Base.Int.{ℤ}
use dev_intel_platform.Json.{Codec}
use dev_intel_platform.Kafka.{Message}
use dev_intel_platform.Tenancy.{Result, ok, err}
use dev_intel_platform.Consumers.{Fetched, settled, Service, new_loop, run}
use dev_intel_platform.Consumers.Kept.{IsKept, run-AllKept}
use dev_intel_platform.Archiver.{Objects, object_at, State, archive}
use dev_intel_platform.Archiver.Filing.{
  Filed, stored, present, failed, Archived, filed, unresolved, archive-Archived, Partition, IsName,
  path,
}
use dev_intel_platform.Archiver.Consuming.{judged, archiver}

module _ {Bytes : Type 0} where
  kept_if :
      (b : Bool) (w x : Bytes) (o o' : Option Bytes)
      → (o ≡ some x → o' ≡ some x)
      → (if b then some w else o) ≡ some x
      → (if b then some w else o') ≡ some x
  kept_if true w x o o' f e = e
  kept_if false w x o o' f e = f e

  new_if :
      (b : Bool) (w x : Bytes) (o o' : Option Bytes)
      → (o ≡ none → o' ≡ some x)
      → (if b then some w else o) ≡ none
      → (if b then some w else o') ≡ some x
  new_if true w x o o' f e = absurd (ground arith)
  new_if false w x o o' f e = f e

  -- An object stays, whatever is appended.
  object_at-append :
      (k j : String) (v x : Bytes) (os : Objects Bytes)
      → object_at k os ≡ some x
      → object_at k (os ++ (j, v) ∷ []) ≡ some x
  unfolding object_at
  object_at-append k j v x [] e = absurd (ground arith)
  object_at-append k j v x ((i, w) ∷ os) e =
      kept_if (i == k) w x (object_at k os) (object_at k (os ++ (j, v) ∷ []))
        (object_at-append k j v x os) e

  object_at-new :
      (k : String) (v : Bytes) (os : Objects Bytes)
      → object_at k os ≡ none
      → object_at k (os ++ (k, v) ∷ []) ≡ some v
  unfolding object_at
  object_at-new k v [] e = rw (eq_refl k)
  object_at-new k v ((i, w) ∷ os) e =
      new_if (i == k) w v (object_at k os) (object_at k (os ++ (k, v) ∷ [])) (object_at-new k v os)
        e

-- Whose value an object has: that of the message, where nothing was under the path before, or what
-- was there already.
pub data Origin {Bytes : Type 0} (k : String) (value : Bytes) (before : Objects Bytes)
    : Bytes → Type 0 where
  own : object_at k before ≡ none → Origin k value before value
  earlier : (old : Bytes) → object_at k before ≡ some old → Origin k value before old

-- A state that the operations of a service lead to from another one.
pub data Reaches {Bytes S : Type 0} (service : Service Bytes S) (s : S) : S → Type 0 where
  here : Reaches service s s
  handles :
      {t : S} (m : Message Bytes) → Reaches service s t → Reaches service s (service.handle m t).1
  sleeps : {t : S} (d : ℤ) → Reaches service s t → Reaches service s (service.sleep d t).1

module _ {Bytes : Type 0} (codec : Codec Bytes) where
  Filed-object :
      (key k : String) (value x : Bytes) (before : Objects Bytes) (r : Result (Unit {0}))
      (after : Objects Bytes)
      → Filed codec key value before r after
      → object_at k before ≡ some x
      → object_at k after ≡ some x
  Filed-object key k value x before r _ (stored _ e) h = object_at-append k key value x before h
  Filed-object key k value x before r _ (present _ old e) h = h
  Filed-object key k value x before _ _ (failed e) h = h

  Archived-object :
      (m : Message Bytes) (day k : String) (x : Bytes) (s : State Bytes) (r : Result (Unit {0}))
      (after : Objects Bytes)
      → Archived codec m day s.world.db s.objects r after
      → object_at k s.objects ≡ some x
      → object_at k after ≡ some x
  Archived-object m day k x s r after (filed p name _ _ _ _ f) h =
      Filed-object (path p day name) k m.value x s.objects r after f h
  Archived-object m day k x s _ _ (unresolved e) h = h

  -- The path that a message was filed under on some day, and the object that is there.
  pub record Found (m : Message Bytes) (day : String) (s : State Bytes) (after : Objects Bytes)
      : Type 0 where
    pub partition : String
    pub name : String
    pub object : Bytes
    pub owns : Partition codec m.value s.world.db partition
    pub named : IsName codec m name
    pub origin : Origin (path partition day name) m.value s.objects object
    pub there : object_at (path partition day name) after ≡ some object

  Filed-Found :
      (m : Message Bytes) (day partition name : String) (s : State Bytes) (u : Unit)
      (after : Objects Bytes)
      → Partition codec m.value s.world.db partition
      → IsName codec m name
      → Filed codec (path partition day name) m.value s.objects (ok u) after
      → Found m day s after
  Filed-Found m day p name s u _ o n (stored _ e) = record {
    partition = p;
    name = name;
    object = m.value;
    owns = o;
    named = n;
    origin = own e;
    there = object_at-new (path p day name) m.value s.objects e;
  }
  Filed-Found m day p name s u _ o n (present _ old e) = record {
    partition = p;
    name = name;
    object = old;
    owns = o;
    named = n;
    origin = earlier old e;
    there = e;
  }

  Archived-Found :
      (m : Message Bytes) (day : String) (s : State Bytes) (u : Unit) (after : Objects Bytes)
      → Archived codec m day s.world.db s.objects (ok u) after
      → Found m day s after
  Archived-Found m day s u after (filed p name _ _ o n f) = Filed-Found m day p name s u after o n f

  judged-Found :
      (m : Message Bytes) (day : String) (s : State Bytes) (r : Result (Unit {0})) (t : State Bytes)
      → Archived codec m day s.world.db s.objects r t.objects
      → (judged (r, t)).0 ≡ settled
      → Found m day s (judged (r, t)).1.objects
  unfolding judged
  judged-Found m day s (ok u) t a e = Archived-Found m day s u t.objects a
  judged-Found m day s (err f) t a e = absurd (ground arith)

  judged-state : (x : Result (Unit {0}) × State Bytes) → (judged x).1 ≡ x.1
  unfolding judged
  judged-state (ok _, s) = refl
  judged-state (err e, s) = refl

module _ {Bytes : Type 0} (codec : Codec Bytes) (date : State Bytes → String)
    (sleep : ℤ → State Bytes → Bool × State Bytes)
    (timer : (d : ℤ) (s : State Bytes) → (sleep d s).1.objects ≡ s.objects) where
  -- The message was handled with success in an earlier state of the archiver, and the object that was found or put
  -- under its path then is still there.
  pub record IsStored (m : Message Bytes) (s : State Bytes) : Type 0 where
    pub at : State Bytes
    pub settles : ((archiver codec date sleep).handle m at).0 ≡ settled
    pub since : Reaches (archiver codec date sleep) ((archiver codec date sleep).handle m at).1 s
    pub found : Found codec m (date at) at s.objects

  moved :
      (m : Message Bytes) (s t : State Bytes) (i : IsStored m s)
      → Reaches (archiver codec date sleep) ((archiver codec date sleep).handle m i.at).1 t
      → ((k : String) (x : Bytes) → object_at k s.objects ≡ some x → object_at k t.objects ≡ some x)
      → IsStored m t
  moved m s t i w f = record {
    at = i.at;
    settles = i.settles;
    since = w;
    found = record {
      partition = i.found.partition;
      name = i.found.name;
      object = i.found.object;
      owns = i.found.owns;
      named = i.found.named;
      origin = i.found.origin;
      there = f _ _ i.found.there;
    };
  }

  handled-object :
      (m' : Message Bytes) (s : State Bytes) (k : String) (x : Bytes)
      → object_at k s.objects ≡ some x
      → object_at k ((archiver codec date sleep).handle m' s).1.objects ≡ some x
  unfolding archiver
  handled-object m' s k x h =
      let y = archive codec m' (date s) s in
      subst (λ t. object_at k t.objects ≡ some x) (sym (judged-state codec y))
        (Archived-object codec m' (date s) k x s y.0 y.1.objects
          (archive-Archived codec m' (date s) s) h)

  handled-Found :
      (m : Message Bytes) (s : State Bytes)
      → ((archiver codec date sleep).handle m s).0 ≡ settled
      → Found codec m (date s) s ((archiver codec date sleep).handle m s).1.objects
  unfolding archiver
  handled-Found m s e =
      let x = archive codec m (date s) s in
      judged-Found codec m (date s) s x.0 x.1 (archive-Archived codec m (date s) s) e

  archiver-IsKept : IsKept (archiver codec date sleep) IsStored
  archiver-IsKept = record {
    gained = λ m s e. record { at = s; settles = e; since = here; found = handled-Found m s e };
    handled = λ m m' s i.
        moved m s ((archiver codec date sleep).handle m' s).1 i (handles m' i.since)
          (handled-object m' s);
    committed = λ m m' s i. unfold archiver in i;
    slept = λ m d s i.
        moved m s ((archiver codec date sleep).sleep d s).1 i (sleeps d i.since)
          (λ k x h. unfold archiver in ap (object_at k) (timer d s) ∙ h);
  }

  -- Where waiting changes no object: in whatever state the archiver's loop ends, whichever calls
  -- failed on the way, each message that it has committed was handled with success in an earlier state
  -- and now has an object. The object's path is raw/github, a partition that was the message's in the
  -- database of that state, the day of that state, and the delivery id, or the key where that is empty;
  -- its content is the message's value, unless another object was at that path already, which is then
  -- kept.
  pub archiver-IsStored :
      (fs : List (Fetched Bytes)) (s : State Bytes)
      → let l = run (archiver codec date sleep) fs (new_loop s) in
        All (λ m. IsStored m l.state) l.commits
  archiver-IsStored fs s = run-AllKept (archiver codec date sleep) IsStored archiver-IsKept fs s
