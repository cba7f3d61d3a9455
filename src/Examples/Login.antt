-- ===== src/Examples/Login.antt =====
-- A login of Claude: started, waiting for the browser, given a code, and reported.
use hsin_rs.Prelude.{true, false, some, [], ◌∷◌, Text, codes, refl, ok}
use hsin_rs.Core.Enums.{claude}
use hsin_rs.Login.{
  LoginManager, session_of, update, await_browser, login_session, run_official_login,
  start_official_login, submit_official_login,
}
use hsin_rs.Login.Steps.{Reaches, here, then_step, start, browser, submit, IsRunning}
use hsin_rs.Login.Consistent.{IsSafe}
use hsin_rs.Login.Safe.{reaches-IsSafe}
use hsin_rs.Login.Ends.{IsOver, report-IsOver}

abbrev started : LoginManager
started = (codes "a", session_of (codes "a") claude) ∷ []

abbrev url : Text
url = codes "https://claude.ai/oauth"

unfoldable waiting : LoginManager
unfolding update await_browser
waiting = update (codes "a") (await_browser url) started

abbrev code : Text
code = codes "xy#z"

unfoldable given : LoginManager
unfolding waiting update
given = update (codes "a") (λ s. record s { input = code ∷ [] }) waiting

running_started : IsRunning (codes "a") started
unfolding login_session
running_started = record { session = _; known = refl; unreported = refl }

reached : Reaches [] given
unfolding start_official_login waiting given submit_official_login
reached =
    then_step
      (then_step (then_step here (start true (ok tt) (codes "a") claude {after = started} refl))
        (browser (codes "a") url running_started))
      (submit true (codes "a") code {after = given} refl)

reaches-IsSafe_example : IsSafe given
reaches-IsSafe_example = reaches-IsSafe reached

running_given : IsRunning (codes "a") given
unfolding login_session given
running_given = record { session = _; known = refl; unreported = refl }

report-IsOver_example :
    IsOver
      (codes "a")
      claude
      (update (codes "a") (run_official_login (ok tt) false (ok (some (codes "p1"))) (ok tt)) given)
unfolding running_given
report-IsOver_example =
    report-IsOver (codes "a") reached running_given (ok tt) (ok tt) false (ok (some (codes "p1")))
