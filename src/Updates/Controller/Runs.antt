-- ===== src/Updates/Controller/Runs.antt =====
-- Runs of the update controller, and the consent that precedes a download and a launch.
use limit_halo.Prelude.{
  not, suc, false, true, if_both, String, ℕ, ◌+◌, ◌≡◌, Bool, Option, none, some, List, [], ◌∷◌,
  length, arith,
}
use limit_halo.Prelude.{refl, length-append, leb, is_some, ap, ◌++◌, ◌&&◌, ◌||◌, if◌then◌else◌}
use limit_halo.Updates.Controller.{
  message_of, end_worker, new_controller, StagedUpdate, check_again, drain, is_check,
  check_interval, stage_done, checked, failed, Release, asked, offer_download, Message, process,
  informed, when_agreed, offer_release, announce, Controller, Job, check, stage, launch, Question,
  download, install, Effect, agreed, started, work, click, tick, close, Outcome, finish, is_idle,
}

-- A click and a tick carry the answers that the person gives meanwhile. A click asks at most one
-- question, and so does a tick, since at most one result is waiting.
pub data Action : Type 0 where
  clicked : (Question → Bool) → Action
  ticked : ℕ → (Question → Bool) → Action
  closed_window : Action
  ended : Outcome → Action

unfoldable pub act : Controller → Action → Controller
act c (clicked ask) = click ask c
act c (ticked now ask) = tick ask now c
act c closed_window = close c
act c (ended outcome) = finish outcome c

unfoldable pub act_all : List Action → Controller → Controller
unfolding act
act_all [] c = c
act_all (a ∷ as') c = act_all as' (act c a)

-- What must come directly before a worker is started.
pub IsAllowed : Job → List Effect → Type 0
IsAllowed check log = Unit {0}
IsAllowed (stage r) (agreed (download q) ∷ log) = q ≡ r
IsAllowed (launch s a) (agreed (install q) ∷ log) = (q ≡ s) × (a ≡ s.acceptance)
IsAllowed _ _ = ⊥

pub AllAllowed : List Effect → Type 0
unfolding IsAllowed
AllAllowed [] = Unit {0}
AllAllowed (started job ∷ log) = IsAllowed job log × AllAllowed log
AllAllowed (_ ∷ log) = AllAllowed log

-- One worker or result is outstanding exactly when the controller is busy.
abbrev count_busy : Option Job → ℕ
count_busy none = 0
count_busy (some job) = 1

pub record IsOrderly (c : Controller) : Type 0 where
  pub allowed : AllAllowed c.log
  pub balanced : length c.workers + length c.results ≡ count_busy c.busy

work-IsOrderly :
    (job : Job) (c : Controller) → IsAllowed job c.log → IsOrderly c → IsOrderly (work job c)
unfolding work is_idle AllAllowed
work-IsOrderly job c a h = ground arith

-- The job that the agreement to a question allows.
abbrev job_of : Question → Job
job_of (download r) = stage r
job_of (install s) = launch s s.acceptance

agreed_allows : (q : Question) (log : List Effect) → IsAllowed (job_of q) (agreed q ∷ log)
unfolding IsAllowed
agreed_allows (download r) log = refl
agreed_allows (install s) log = (refl, refl)

when_agreed-IsOrderly :
    (answer : Bool) (q : Question) (c : Controller)
    → IsOrderly c
    → IsOrderly (when_agreed answer q (job_of q) c)
unfolding when_agreed AllAllowed
when_agreed-IsOrderly true q c h =
    work-IsOrderly (job_of q) (record c { log = agreed q ∷ asked q ∷ c.log })
      (agreed_allows q (asked q ∷ c.log)) (record { allowed = h.allowed; balanced = h.balanced })
when_agreed-IsOrderly false q c h = record { allowed = h.allowed; balanced = h.balanced }

informed-IsOrderly :
    (text : String) (c : Controller)
    → IsOrderly c
    → IsOrderly (record c { log = informed text ∷ c.log })
unfolding AllAllowed
informed-IsOrderly text c h = record { allowed = h.allowed; balanced = h.balanced }

-- The other fields do not matter.
reset-IsOrderly :
    (c : Controller) (manual : Bool) (time : ℕ)
    → IsOrderly c
    → IsOrderly (record c { manual = manual; next_check = time })
reset-IsOrderly c manual time h = record { allowed = h.allowed; balanced = h.balanced }

released-IsOrderly :
    (c : Controller) (value : Option Release) (time : ℕ)
    → IsOrderly c
    → IsOrderly (record c { next_check = time; release = value })
released-IsOrderly c value time h = record { allowed = h.allowed; balanced = h.balanced }

staged-IsOrderly :
    (c : Controller) (value : StagedUpdate)
    → IsOrderly c
    → IsOrderly (record c { staged = some value })
staged-IsOrderly c value h = record { allowed = h.allowed; balanced = h.balanced }

quiet-IsOrderly : (c : Controller) → IsOrderly c → IsOrderly (record c { manual = false })
quiet-IsOrderly c h = record { allowed = h.allowed; balanced = h.balanced }

too_many : (busy : Option Job) (n k : ℕ) → n + suc (suc k) ≡ count_busy busy → ⊥
too_many none n k h = omega arith
too_many (some job) n k h = omega arith

-- A worker became a result.
moved_result :
    (m : Message) (results : List Message) (jobs workers : List Job) (job : Job) (busy : Option Job)
    → job ∷ jobs ≡ workers
    → length workers + length results ≡ count_busy busy
    → length jobs + length (results ++ (m ∷ [])) ≡ count_busy busy
moved_result m results jobs workers job busy e h =
    let n = ap length e in omega (arith, length-append results (m ∷ []))

module _ (ask : Question → Bool) where
  offer_release-IsOrderly :
      (value : Option Release) (c : Controller)
      → IsOrderly c
      → IsOrderly (offer_release ask value c)
  unfolding offer_release
  offer_release-IsOrderly none c h = h
  offer_release-IsOrderly (some r) c h =
      if_both IsOrderly c.closed c (when_agreed (ask (download r)) (download r) (stage r) c) h
        (when_agreed-IsOrderly (ask (download r)) (download r) c h)

  announce-IsOrderly :
      (value : Option Release) (c : Controller) → IsOrderly c → IsOrderly (announce ask value c)
  unfolding announce offer_download
  announce-IsOrderly none c h = informed-IsOrderly "update_current" c h
  announce-IsOrderly (some r) c h = offer_release-IsOrderly c.release c h

  process-IsOrderly :
      (now : ℕ) (m : Message) (c : Controller) → IsOrderly c → IsOrderly (process ask now m c)
  unfolding process
  process-IsOrderly now (failed job) c h =
      reset-IsOrderly
        (if c.manual || not (is_check job)
          then record c { log = informed "update_failed" ∷ c.log }
          else c)
        false (now + check_interval)
        (if_both IsOrderly (c.manual || not (is_check job))
          (record c { log = informed "update_failed" ∷ c.log }) c
          (informed-IsOrderly "update_failed" c h) h)
  process-IsOrderly now (checked value) c h =
      let known = record c { next_check = now + check_interval; release = value } in
      let h0 = released-IsOrderly c value (now + check_interval) h in
      quiet-IsOrderly (if c.manual then announce ask value known else known) (
        if_both IsOrderly c.manual (announce ask value known) known
          (announce-IsOrderly value known h0) h0)
  process-IsOrderly now (stage_done value) c h =
      let kept = record c { staged = some value } in
      let h0 = staged-IsOrderly c value h in
      if_both IsOrderly c.portable (record kept { log = informed "update_portable_ready" ∷ c.log })
        (when_agreed (ask (install value)) (install value) (launch value value.acceptance) kept)
        (informed-IsOrderly "update_portable_ready" kept h0)
        (when_agreed-IsOrderly (ask (install value)) (install value) kept h0)
  process-IsOrderly now Message.launched c h = record { allowed = h.allowed; balanced = h.balanced }

  drain-IsOrderly :
      (now : ℕ) (ms : List Message) (c : Controller)
      → AllAllowed c.log
      → length c.workers + length ms ≡ count_busy c.busy
      → c.results ≡ []
      → IsOrderly (drain ask now ms c)
  unfolding drain
  drain-IsOrderly now [] c a b r = record { allowed = a; balanced = ground arith }
  drain-IsOrderly now (m ∷ []) c a b r =
      process-IsOrderly now m (record c { busy = none })
        (record { allowed = a; balanced = ground arith })
  drain-IsOrderly now (m ∷ m' ∷ ms) c a b r =
      absurd (too_many c.busy (length c.workers) (length ms) b)

  check_again-IsOrderly :
      (now : ℕ) (c : Controller) → IsOrderly c → IsOrderly (check_again ask now c)
  unfolding check_again IsAllowed
  check_again-IsOrderly now c h =
      if_both IsOrderly (not (is_some c.busy) && not c.launch_requested && leb c.next_check now)
        (work check (record c { next_check = now + check_interval })) c
        (work-IsOrderly check (record c { next_check = now + check_interval }) tt
          (record { allowed = h.allowed; balanced = h.balanced }))
        h

  tick-IsOrderly : (now : ℕ) (c : Controller) → IsOrderly c → IsOrderly (tick ask now c)
  unfolding tick
  tick-IsOrderly now c h =
      let drained = drain ask now c.results (record c { results = [] }) in
      if_both IsOrderly c.closed c (check_again ask now drained) h (
        check_again-IsOrderly now drained
          (drain-IsOrderly now c.results (record c { results = [] }) h.allowed h.balanced refl))

  click-IsOrderly : (c : Controller) → IsOrderly c → IsOrderly (click ask c)
  unfolding click offer_download IsAllowed
  click-IsOrderly c h =
      let clicked = record c { manual = true } in
      let h0 : IsOrderly clicked = record { allowed = h.allowed; balanced = h.balanced } in
      if_both IsOrderly (not (is_idle c)) c
        (if is_some c.release then offer_release ask c.release clicked else work check clicked) h
        (if_both IsOrderly (is_some c.release) (offer_release ask c.release clicked)
          (work check clicked) (offer_release-IsOrderly c.release clicked h0)
          (work-IsOrderly check clicked tt h0))

end_worker-IsOrderly :
    (outcome : Outcome) (jobs : List Job) (c : Controller)
    → jobs ≡ c.workers
    → IsOrderly c
    → IsOrderly (end_worker outcome jobs c)
unfolding end_worker
end_worker-IsOrderly outcome [] c e h = h
end_worker-IsOrderly outcome (job ∷ jobs) c e h = record {
  allowed = h.allowed;
  balanced = moved_result (message_of job outcome) c.results jobs c.workers job c.busy e h.balanced;
}

act-IsOrderly : (a : Action) (c : Controller) → IsOrderly c → IsOrderly (act c a)
unfolding act finish close
act-IsOrderly (clicked ask) c h = click-IsOrderly ask c h
act-IsOrderly (ticked now ask) c h = tick-IsOrderly ask now c h
act-IsOrderly closed_window c h = record { allowed = h.allowed; balanced = h.balanced }
act-IsOrderly (ended outcome) c h = end_worker-IsOrderly outcome c.workers c refl h

runs-IsOrderly :
    (actions : List Action) (c : Controller) → IsOrderly c → IsOrderly (act_all actions c)
unfolding act_all
runs-IsOrderly [] c h = h
runs-IsOrderly (a ∷ actions) c h = runs-IsOrderly actions (act c a) (act-IsOrderly a c h)

-- From the start, whatever the person clicks, whatever the person answers each time, whenever the
-- ticks come and however the workers end: a download is started only directly after the person
-- agreed to that release, and an installation only directly after the person agreed to that staged
-- update, with its own acceptance text; and there is one worker or one result to be read when the
-- controller is busy, and none when it is not.
pub act_all-IsOrderly :
    (portable : Bool) (now : ℕ) (actions : List Action)
    → IsOrderly (act_all actions (new_controller portable now))
unfolding new_controller AllAllowed
act_all-IsOrderly portable now actions =
    runs-IsOrderly actions (new_controller portable now) (record { allowed = tt; balanced = refl })
