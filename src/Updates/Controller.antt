-- ===== src/Updates/Controller.antt =====
-- src/limit_halo/update_controller.py, `UpdateController`: clicks and ticks of the UI thread, and the
-- worker threads that put their results in a queue. `ask` is the answer of the person to a
-- question; `log` records the dialogs and the workers that were started, the newest first. The
-- texts of the dialogs are left out. Times are in microseconds.
pub mod Runs
use limit_halo.Prelude.{
  ℕ, ◌+◌, ◌*◌, String, Bool, true, false, ◌||◌, ◌&&◌, not, Option, none, some, List, [], ◌∷◌,
  if◌then◌else◌, leb,
}
use limit_halo.Prelude.{is_some, ◌++◌}
use limit_halo.Updates.{Release, StagedUpdate}

-- A worker with what its call is applied to.
pub data Job : Type 0 where
  check : Job
  stage : Release → Job
  launch : StagedUpdate → String → Job

-- What a worker puts in the queue.
pub data Message : Type 0 where
  checked : Option Release → Message
  stage_done : StagedUpdate → Message
  launched : Message
  failed : Job → Message

pub data Question : Type 0 where
  download : Release → Question
  install : StagedUpdate → Question

pub data Effect : Type 0 where
  asked : Question → Effect
  agreed : Question → Effect
  informed : String → Effect
  started : Job → Effect

pub record Controller : Type 0 where
  pub portable : Bool
  pub release : Option Release
  pub staged : Option StagedUpdate
  pub busy : Option Job
  pub closed : Bool
  pub manual : Bool
  pub launch_requested : Bool
  pub next_check : ℕ
  pub results : List Message
  pub workers : List Job
  pub log : List Effect

abbrev pub check_interval : ℕ
check_interval = 21_600_000_000

unfoldable pub new_controller : Bool → ℕ → Controller
new_controller portable now = record {
  portable = portable;
  release = none;
  staged = none;
  busy = none;
  closed = false;
  manual = false;
  launch_requested = false;
  next_check = now + 15_000_000;
  results = [];
  workers = [];
  log = [];
}

unfoldable pub is_idle : Controller → Bool
is_idle c = not (c.closed || is_some c.busy || c.launch_requested)

abbrev pub note : Effect → Controller → Controller
note e c = record c { log = e ∷ c.log }

-- `_work`: one worker at a time.
unfoldable pub work : Job → Controller → Controller
unfolding is_idle
work job c =
    if is_idle c
    then record c { busy = some job; workers = job ∷ c.workers; log = started job ∷ c.log }
    else c

-- What follows a question: the agreement and the worker that it allows.
unfoldable pub when_agreed : Bool → Question → Job → Controller → Controller
unfolding work
when_agreed answer question job c =
    if answer
    then work job (note (agreed question) (note (asked question) c))
    else note (asked question) c

abbrev is_check : Job → Bool
is_check check = true
is_check _ = false

module _ (ask : Question → Bool) where
  offer_release : Option Release → Controller → Controller
  unfolding when_agreed
  offer_release none c = c
  offer_release (some r) c =
      if c.closed then c else when_agreed (ask (download r)) (download r) (stage r) c

  -- `_offer_download`
  unfoldable pub offer_download : Controller → Controller
  unfolding offer_release
  offer_download c = offer_release c.release c

  unfoldable pub click : Controller → Controller
  unfolding offer_download is_idle
  click c =
      if not (is_idle c)
      then c
      else if is_some c.release
      then offer_download (record c { manual = true })
      else work check (record c { manual = true })

  -- The result of a check that a click asked for.
  announce : Option Release → Controller → Controller
  unfolding offer_download
  announce none c = note (informed "update_current") c
  announce (some r) c = offer_download c

  -- The body of the loop of `tick`, after `busy` is reset.
  unfoldable pub process : ℕ → Message → Controller → Controller
  unfolding announce when_agreed
  process now (failed job) c =
      record (if c.manual || not (is_check job) then note (informed "update_failed") c else c) {
        manual = false;
        next_check = now + check_interval;
      }
  process now (checked value) c =
      record (if c.manual
        then announce value (record c { next_check = now + check_interval; release = value })
        else record c { next_check = now + check_interval; release = value }) { manual = false }
  process now (stage_done value) c =
      if c.portable
      then note (informed "update_portable_ready") (record c { staged = some value })
      else when_agreed (ask (install value)) (install value) (launch value value.acceptance)
          (record c { staged = some value })
  process now launched c = record c { launch_requested = true }

  unfoldable pub drain : ℕ → List Message → Controller → Controller
  unfolding process
  drain now [] c = c
  drain now (m ∷ ms) c = drain now ms (process now m (record c { busy = none }))

  check_again : ℕ → Controller → Controller
  unfolding work
  check_again now c =
      if not (is_some c.busy) && not c.launch_requested && leb c.next_check now
      then work check (record c { next_check = now + check_interval })
      else c

  unfoldable pub tick : ℕ → Controller → Controller
  unfolding check_again drain
  tick now c =
      if c.closed then c else check_again now (drain now c.results (record c { results = [] }))

unfoldable pub close : Controller → Controller
close c = record c { closed = true }

-- How the call of a worker ends.
pub data Outcome : Type 0 where
  raised : Outcome
  found : Option Release → Outcome
  saved : StagedUpdate → Outcome
  returned : Outcome

-- The value of a call is of the type of its operation.
message_of : Job → Outcome → Message
message_of check (found value) = checked value
message_of (stage r) (saved value) = stage_done value
message_of (launch s a) returned = launched
message_of job _ = failed job

-- A worker ends.
end_worker : Outcome → List Job → Controller → Controller
unfolding message_of
end_worker outcome [] c = c
end_worker outcome (job ∷ jobs) c = record c {
  workers = jobs;
  results = c.results ++ (message_of job outcome ∷ []);
}

unfoldable pub finish : Outcome → Controller → Controller
unfolding end_worker
finish outcome c = end_worker outcome c.workers c
