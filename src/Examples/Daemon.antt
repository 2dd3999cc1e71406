-- ===== src/Examples/Daemon.antt =====
-- Runs of the approvals handler and of the sessions on small inputs.
use rato.Prelude.{true, not, none, some, [], ◌∷◌, ◌≡◌, refl, ◌⊎◌, map, filter, contains, trim}
use rato.Store.Approvals.{do_get_approval, do_decide_approval}
use rato.Workbench.Git.{is_fast_mergeable, merge_into_live}
use rato.Workbench.Merge.{execute_merge}
use rato.Examples.Fixtures.{small_env, small_world}
use rato.Daemon.Decide.{DecideParams, approvals_decide}
use rato.Daemon.Decide.Gate.{Same, Opened, approvals_decide-guarded}
use rato.Daemon.Sessionizer.{OpenMap, Sessionizer, get, is_stale, on_activity, tick, default_gap_ms}
use rato.Daemon.Sessionizer.Activity.{next_session, next_updates, get-on_activity}
use rato.Daemon.Sessionizer.Closing.{Distinct, close_of, tick-stale}

abbrev approve_params : DecideParams
approve_params = record {
  id = "01KTYABCDEFG";
  verdict = "approve";
  slug = some "BCDEFG";
  note = none;
}

-- With the right slug the branch is merged, once.
approve_merges :
    small_env.git.live (approvals_decide small_env approve_params 20 21 22 small_world).1.disk ≡ 1
unfolding approvals_decide do_get_approval do_decide_approval execute_merge is_fast_mergeable
    contains merge_into_live trim
approve_merges = refl

-- After the expiry it is not.
approve_late :
    small_env.git.live (approvals_decide small_env approve_params 20 1000 1001 small_world).1.disk
    ≡ 0
unfolding approvals_decide do_get_approval do_decide_approval execute_merge
approve_late = refl

approvals_decide-guarded_example :
    Same small_env approve_params 20 21 22 small_world
      (approvals_decide small_env approve_params 20 21 22 small_world).1
    ⊎ Opened small_env approve_params 20 21 22 small_world
approvals_decide-guarded_example =
    approvals_decide-guarded small_env approve_params 20 21 22 small_world

abbrev two_sessions : OpenMap
two_sessions =
    ("old", record { id = "s1"; last_activity = 1000; commands = 3 })
    ∷ ("new", record { id = "s2"; last_activity = 1500000; commands = 1 })
    ∷ []

abbrev small_sessionizer : Sessionizer
small_sessionizer = record { gap_ms = default_gap_ms; opened = two_sessions }

two_sessions-Distinct : Distinct two_sessions
two_sessions-Distinct = ((refl, tt), (tt, tt))

tick-stale_example : tick 1600000 small_sessionizer ≡ (
  record small_sessionizer {
    opened = filter (λ e. not (is_stale default_gap_ms 1600000 e)) two_sessions;
  },
  map close_of (filter (is_stale default_gap_ms 1600000) two_sessions),
)
tick-stale_example = tick-stale 1600000 small_sessionizer two_sessions-Distinct

get-on_activity_example :
    (get "old" (on_activity "s3" "old" 1600000 true small_sessionizer).0.opened
      ≡ some (next_session "s3" 1600000 true default_gap_ms (get "old" two_sessions)))
    × ((on_activity "s3" "old" 1600000 true small_sessionizer).1
        ≡ next_updates "s3" "old" 1600000 true default_gap_ms (get "old" two_sessions))
get-on_activity_example = get-on_activity "s3" "old" 1600000 true small_sessionizer "old"
