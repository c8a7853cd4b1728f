-- ===== src/Session/Tests.antt =====
-- A session over two empty stores, and each theorem at it.
use prism_harness_py.Result.{ok}
use prism_harness_py.Session.{
  failed, completion, begun, ended, run, provider, model, fail_run, mode, complete_run, Session,
  begin_run, resolve_read_only, using_mode,
}
use prism_harness_py.Prelude.{List, eq_iff, arith, some, none, false, refl, [], ◌∷◌, ◌≡◌}
use prism_harness_py.Store.{World}
use prism_harness_py.Session.Keeping.{resolved_again, using_mode-mode, late_report}
use prism_harness_py.Session.View.{
  uses_thread, locks, Call, resolve_read_only-unchanged, uses_mode, perform_all,
}

abbrev empty : World
empty = record { entries = []; clock = 0; busy = λ key. false }

abbrev session : Session
session = record {
  key = "s";
  ephemeral = empty;
  durable = empty;
  cached = none;
  resolution_only = false;
  resolved_mode = none;
}

using_mode_example :
    ((using_mode "plan" session).0 ≡ ok tt)
    × ((mode (using_mode "plan" session).1).0 ≡ ok (some "plan"))
    × ((mode (resolved_again (using_mode "plan" session).1)).0 ≡ ok (some "plan"))
    × ((model (resolved_again (using_mode "plan" session).1)).0 ≡ (model session).0)
    × ((provider (resolved_again (using_mode "plan" session).1)).0 ≡ (provider session).0)
using_mode_example = using_mode-mode session "plan" (refl, refl)

late_report_example :
    let mine = (begin_run "a" "chat" "p" "m" "12:00" session).1 in
    let now = (begin_run "b" "chat" "p" "m" "12:00" (resolved_again mine)).1 in
    let anew = (run (resolved_again now)).1 in
    let stale : Session = record mine { ephemeral = now.ephemeral; durable = now.durable } in
    (complete_run "a" "stop" [] "12:01" (resolved_again now) ≡ (ok tt, anew))
    × (fail_run "a" "lost" "12:01" (resolved_again now) ≡ (ok tt, anew))
    × (anew.ephemeral ≡ now.ephemeral)
    × (anew.durable ≡ now.durable)
    × ((run (resolved_again (complete_run "a" "stop" [] "12:01" stale).1)).0
        ≡ ok (
            some (
              ended
                (begun "a" "chat" "p" "m" "12:00")
                "a"
                "completed"
                "12:01"
                (completion "stop" []))))
    × ((run (resolved_again (fail_run "a" "lost" "12:01" stale).1)).0
        ≡ ok (some (ended (begun "a" "chat" "p" "m" "12:00") "a" "failed" "12:01" (failed "lost"))))
late_report_example =
    late_report session "a" "b" "chat" "p" "m" "12:00" refl (λ e. ground (arith, eq_iff "a" "b"))
      "stop" "lost" "12:01" []

-- A write, a clearing of the store under the lock, and of what the thread is kept in.
abbrev calls : List Call
calls =
    uses_mode "plan"
    ∷ (locks (λ s. record s { ephemeral = empty }) ∷ (uses_thread (λ key w. empty) ∷ []))

read_only_example :
    resolve_read_only "chat" (λ view. (ok tt, perform_all calls view)) session ≡ (ok tt, session)
read_only_example = resolve_read_only-unchanged "chat" calls session
