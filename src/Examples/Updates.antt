-- ===== src/Examples/Updates.antt =====
-- src/limit_halo/update_controller.py on a concrete run.
use limit_halo.Prelude.{◌≡◌, refl, Bool, true, false, some, List, [], ◌∷◌}
use limit_halo.Updates.{Release, StagedUpdate}
use limit_halo.Updates.Controller.{
  finish, tick, click, click, finish, tick, Question, found, saved, returned, new_controller,
}
use limit_halo.Updates.Controller.Runs.{
  Action, clicked, ticked, ended, act_all, IsOrderly, act_all-IsOrderly,
}

abbrev newer : Release
newer = record { version = "2.0.0"; tag = "v2.0.0"; assets = []; page_url = "" }

abbrev bundle : StagedUpdate
bundle = record { directory = "d"; acceptance = "a:b:c"; release = newer; update_root = "r" }

abbrev agreeing : Question → Bool
agreeing question = true

abbrev declining : Question → Bool
declining question = false

-- A check by a click, a download that is declined and later agreed to, the installation.
abbrev session : List Action
session =
    clicked agreeing
    ∷ ended (found (some newer))
    ∷ ticked 1 declining
    ∷ clicked agreeing
    ∷ ended (saved bundle)
    ∷ ticked 2 agreeing
    ∷ ended returned
    ∷ ticked 3 agreeing
    ∷ []

launched : (act_all session (new_controller false 0)).launch_requested ≡ true
unfolding act_all tick finish click new_controller
launched = refl

act_all-IsOrderly_example : IsOrderly (act_all session (new_controller false 0))
act_all-IsOrderly_example = act_all-IsOrderly false 0 session

-- A click on a known release that is declined leaves `manual` set, so that the next check in the
-- background asks a question.
abbrev declined : List Action
declined =
    ticked 15_000_000 declining
    ∷ ended (found (some newer))
    ∷ ticked 16_000_000 declining
    ∷ clicked declining
    ∷ []

still_manual : (act_all declined (new_controller false 0)).manual ≡ true
unfolding act_all click tick finish new_controller
still_manual = refl
