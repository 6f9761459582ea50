-- ===== src/Worker/Crons/Merged.antt =====
-- Which definition of a recurring job counts: queue/worker.go, mergeCronJobs.
use orkai_runiq.Common.{
  ◌≡◌, refl, sym, map, ap, ◌∙◌, Text, text_eq, text_eq_iff, Bool, true, false, Option, none, some,
  List, [], ◌∷◌, if◌then◌else◌, arith, is_empty,
}
use orkai_runiq.Sql.{Result, ok, err, World, pure, attempt, ◌>>=◌}
use orkai_runiq.Sqlite.Tables.{CronJob}
use orkai_runiq.Worker.Setup.{utc}
use orkai_runiq.Worker.{
  Location, WorkerPool, PoolState, LocatedCron, find_key, put_key, call, inside,
}
use orkai_runiq.Worker.Crons.{
  located, get_cron_location, or_utc, put_static, put_dynamic, with_dynamic, merge_cron_jobs,
}

find_key-put_key :
    {V : Type 0} (k j : Text) (v : V) (m : List (Text × V))
    → find_key k (put_key j v m) ≡ (if text_eq j k then some v else find_key k m)
unfolding find_key put_key
find_key-put_key k j v [] = refl
find_key-put_key k j v ((i, w) ∷ m) =
    ground (arith, text_eq_iff j k, text_eq_iff i j, text_eq_iff i k, find_key-put_key k j v m)

-- The last item of a name.
abbrev pub later : {A : Type 0} → Option A → Option A → Option A
later none a = a
later (some b) a = some b

module _ {A : Type 0} (key : A → Text) (name : Text) where
  abbrev pub last_named : List A → Option A
  last_named [] = none
  last_named (x ∷ xs) = later (last_named xs) (if text_eq (key x) name then some x else none)

later_assoc : {A : Type 0} (a b c : Option A) → later (later a b) c ≡ later a (later b c)
later_assoc none b c = refl
later_assoc (some a) b c = refl

later-none : {A : Type 0} (a : Option A) → later a none ≡ a
later-none none = refl
later-none (some a) = refl

later_if :
    {A : Type 0} (b : Bool) (a : A) (c : Option A)
    → later (if b then some a else none) c ≡ (if b then some a else c)
later_if true a c = refl
later_if false a c = refl

abbrev pub static_name : LocatedCron → Text
static_name c = c.cron.name

find_key-put_static :
    (name : Text) (cs : List LocatedCron) (m : List (Text × LocatedCron))
    → find_key name (put_static cs m) ≡ later (last_named static_name name cs) (find_key name m)
unfolding put_static
find_key-put_static name [] m = refl
find_key-put_static name (c ∷ cs) m =
    find_key-put_static name cs (put_key c.cron.name c m)
    ∙ rw (find_key-put_key name c.cron.name c m) (
        ap (later (last_named static_name name cs))
          (sym (later_if (text_eq c.cron.name name) c (find_key name m)))
        ∙ sym (later_assoc (last_named static_name name cs) _ (find_key name m)))

abbrev pub known_or_utc : Option Location → Location
known_or_utc none = utc
known_or_utc (some l) = l

or_utc-known_or_utc : (o : Option Location) → or_utc o ≡ known_or_utc o
or_utc-known_or_utc none = refl
or_utc-known_or_utc (some l) = refl

-- The time zone of a name: none where it is empty, UTC where the zone is not known.
abbrev pub zone_of : (Text → Option Location) → Text → Option Location
zone_of load [] = none
zone_of load (c ∷ cs) = some (known_or_utc (load (c ∷ cs)))

-- The job of a stored schedule.
abbrev pub in_zone : (Text → Option Location) → CronJob → LocatedCron
in_zone load c = record { cron = c; location = zone_of load c.timezone }

module _ {S : Type 0} (pool : WorkerPool S) where
  location_of :
      (t : Text)
      → (if is_empty t then none else some (get_cron_location pool t))
        ≡ zone_of pool.load_location t
  unfolding is_empty
  location_of [] = refl
  location_of (c ∷ cs) = ap some (or_utc-known_or_utc (pool.load_location (c ∷ cs)))

  located-in_zone : (c : CronJob) → located pool c ≡ in_zone pool.load_location c
  located-in_zone c = ap (λ l. record { cron = c; location = l }) (location_of c.timezone)

  put_dynamic-eq :
      (cs : List CronJob) (m : List (Text × LocatedCron))
      → put_dynamic pool cs m ≡ put_static (map (in_zone pool.load_location) cs) m
  unfolding put_dynamic put_static
  put_dynamic-eq [] m = refl
  put_dynamic-eq (c ∷ cs) m =
      put_dynamic-eq cs (put_key c.name (located pool c) m)
      ∙ ap (λ l. put_static (map (in_zone pool.load_location) cs) (put_key c.name l m))
          (located-in_zone c)

  -- The schedules that the storage has read, or none of them if it could not.
  abbrev pub stored_crons : Result (List CronJob) → List LocatedCron
  stored_crons (err e) = []
  stored_crons (ok dyn) = map (in_zone pool.load_location) dyn

  static_only :
      (name : Text)
      → find_key name (put_static pool.cron_jobs []) ≡ last_named static_name name pool.cron_jobs
  unfolding find_key
  static_only name =
      find_key-put_static name pool.cron_jobs []
      ∙ later-none (last_named static_name name pool.cron_jobs)

  merged :
      (name : Text) (r : Result (List CronJob))
      → find_key name (with_dynamic pool (put_static pool.cron_jobs []) r)
        ≡ later
            (last_named static_name name (stored_crons r))
            (last_named static_name name pool.cron_jobs)
  merged name (err e) = static_only name
  merged name (ok dyn) = rw (put_dynamic-eq dyn (put_static pool.cron_jobs [])) (
      find_key-put_static name (map (in_zone pool.load_location) dyn) (put_static pool.cron_jobs [])
      ∙ ap (later (last_named static_name name (map (in_zone pool.load_location) dyn)))
          (static_only name))

  -- Of all the cron jobs of a name the one that runs is the last stored schedule, with the time zone
  -- that it names or UTC if that zone is not known, and without one, or where the storage cannot be read, the last one that the code
  -- has registered.
  pub merge_cron_jobs_lem :
      (name : Text) (w : World (PoolState S))
      → (m : List (Text × LocatedCron)) × ((merge_cron_jobs pool w).0 ≡ ok m)
        × (find_key name m
            ≡ later
                (last_named static_name name
                  (stored_crons (pool.storage.get_cron_schedules (inside w)).0))
                (last_named static_name name pool.cron_jobs))
  unfolding merge_cron_jobs call attempt ◌>>=◌ pure
  merge_cron_jobs_lem name w = (
    with_dynamic pool (put_static pool.cron_jobs []) (pool.storage.get_cron_schedules (inside w)).0,
    refl,
    merged name (pool.storage.get_cron_schedules (inside w)).0,
  )
