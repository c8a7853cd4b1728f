-- ===== src/Session/Keeping.antt =====
-- What a session is told it reads back, and what a report on a run that is no longer the newest does.
use prism_harness_py.Prelude.{
  true, String, false, none, some, List, ◌≡◌, ◌≢◌, refl, ap, ◌∙◌, arith, eq_iff,
}
use prism_harness_py.Value.{Value, str, obj, Fields, end, get, put, get-put_self, get-put_ne}
use prism_harness_py.Result.{ok}
use prism_harness_py.Exec.{after_ok}
use prism_harness_py.Store
use prism_harness_py.Session.{
  ended, Session, state, mode, model, provider, using_mode, begin_run, complete_run, fail_run, run,
  state_of, write, stored_state, ephemeral_key, finish_run, begun, run_in, finish_from, is_run,
  completion, failed,
}

-- The session that another worker resolves over the same stores.
abbrev pub resolved_again : Session → Session
resolved_again s = record s { cached = none }

-- A session that its owner holds: no read-only view of one.
abbrev pub IsLive : Session → Type 0
IsLive s = (s.resolution_only ≡ false) × (s.resolved_mode ≡ none)

write-live :
    (k : String) (v : Value) (s : Session)
    → s.resolution_only ≡ false
    → write k v s ≡ (ok tt, stored_state (put k v (state_of s)) s)
unfolding state
write-live k v s writable = rw writable refl

-- The key's new value is in what a worker reads that resolves the session again.
reread :
    (k : String) (v : Value) (s : Session)
    → state_of (resolved_again (stored_state (put k v (state_of s)) s)) ≡ put k v (state_of s)
reread k v s =
    ap (λ o. elim o [ none ↦ end | some d ↦ d ])
      (Store.get-put_self (ephemeral_key s) (put k v (state_of s)) s.ephemeral)

-- A mode that is set is read back, by the session and by any other worker that resolves it, and the
-- model and the provider read as they did before.
pub using_mode-mode :
    (s : Session) (m : String)
    → IsLive s
    → ((using_mode m s).0 ≡ ok tt)
      × ((mode (using_mode m s).1).0 ≡ ok (some m))
      × ((mode (resolved_again (using_mode m s).1)).0 ≡ ok (some m))
      × ((model (resolved_again (using_mode m s).1)).0 ≡ (model s).0)
      × ((provider (resolved_again (using_mode m s).1)).0 ≡ (provider s).0)
unfolding using_mode mode model provider state
using_mode-mode s m live =
    rw (write-live "mode" (str m) s live.0, live.1, reread "mode" (str m) s)
      (
        refl,
        rw (get-put_self "mode" (str m) (state_of s)) refl,
        rw (get-put_self "mode" (str m) (state_of s)) refl,
        rw (get-put_ne "mode" "model" (str m) (state_of s) (λ e. cc)) refl,
        rw (get-put_ne "mode" "provider" (str m) (state_of s) (λ e. cc)) refl,
      )

run_in-IsRun :
    (d : Fields) (live : String) → get "id" d ≡ some (str live) → run_in (some (obj d)) ≡ some d
run_in-IsRun d live id = ground arith

finish_from-newer :
    (late status : String) (extra : Fields) (at : String) (s : Session) (d : Fields) (live : String)
    → get "id" d ≡ some (str live)
    → late ≢ live
    → finish_from late status extra at (some d) s ≡ (ok tt, s)
finish_from-newer late status extra at s d live id ne =
    let other : is_run late d ≡ false = rw (id, is_run) (ground (arith, eq_iff live late)) in
    rw (other, finish_from) refl

run-has :
    (s : Session) (d : Fields) (id : String)
    → get "run" (state_of s) ≡ some (obj d)
    → get "id" d ≡ some (str id)
    → run s ≡ (ok (some d), record s { cached = some (state_of s) })
unfolding run state
run-has s d id has is = rw has (rw (run_in-IsRun d id is) refl)

-- A report on a run that is not the one that the session reads does nothing.
finish_run-newer :
    (late status : String) (extra : Fields) (at : String) (s : Session) (d : Fields) (live : String)
    → get "run" (state_of s) ≡ some (obj d)
    → get "id" d ≡ some (str live)
    → late ≢ live
    → finish_run late status extra at s ≡ (ok tt, record s { cached = some (state_of s) })
finish_run-newer late status extra at s d live has id ne =
    let kept : Session = record s { cached = some (state_of s) } in
    after_ok run (finish_from late status extra at) s kept (some d) (run-has s d live has id)
    ∙ finish_from-newer late status extra at kept d live id ne

finish_from-own :
    (id status : String) (extra : Fields) (at : String) (s : Session) (d : Fields)
    → get "id" d ≡ some (str id)
    → finish_from id status extra at (some d) s ≡ write "run" (obj (ended d id status at extra)) s
finish_from-own id status extra at s d is =
    let own : is_run id d ≡ true = rw (is, is_run) (ground (arith, eq_iff id id)) in
    rw (own, finish_from) refl

-- A report on the run that the session reads is written, whatever the store holds.
finish_run-own :
    (id status : String) (extra : Fields) (at : String) (s : Session) (d : Fields)
    → s.resolution_only ≡ false
    → get "run" (state_of s) ≡ some (obj d)
    → get "id" d ≡ some (str id)
    → get "id" (ended d id status at extra) ≡ some (str id)
    → (run (resolved_again (finish_run id status extra at s).1)).0
      ≡ ok (some (ended d id status at extra))
unfolding run state
finish_run-own id status extra at s d writable has is then =
    let kept : Session = record s { cached = some (state_of s) } in
    let v = obj (ended d id status at extra) in
    let wrote : finish_run id status extra at s
        ≡ (ok tt, stored_state (put "run" v (state_of s)) kept) =
      after_ok run (finish_from id status extra at) s kept (some d) (run-has s d id has is)
      ∙ finish_from-own id status extra at kept d is
      ∙ write-live "run" v kept writable in
    let read : get "run" (state_of (resolved_again (stored_state (put "run" v (state_of s)) kept)))
        ≡ some v =
      rw (reread "run" v kept) (get-put_self "run" v (state_of s)) in
    rw wrote (
      ap (λ r. r.0)
        (run-has (resolved_again (stored_state (put "run" v (state_of s)) kept))
          (ended d id status at extra) id read then))

-- Of two workers over the same stores one begins the run `late` and another then begins `live`. A
-- report on `late` by a session that reads the stores anew changes neither store. A report by the
-- session that began `late`, which still has its own run in its cache, is written over the newer run:
-- whoever reads the stores then finds `late`, completed or failed.
pub late_report :
    (s : Session) (late live mode_name provider_name model_name started_at : String)
    → s.resolution_only ≡ false
    → late ≢ live
    → (reason failure at : String) (calls : List String)
    → let mine = (begin_run late mode_name provider_name model_name started_at s).1 in
      let now =
        (begin_run live mode_name provider_name model_name started_at (resolved_again mine)).1 in
      let anew = (run (resolved_again now)).1 in
      let stale : Session = record mine { ephemeral = now.ephemeral; durable = now.durable } in
      (complete_run late reason calls at (resolved_again now) ≡ (ok tt, anew))
      × (fail_run late failure at (resolved_again now) ≡ (ok tt, anew))
      × (anew.ephemeral ≡ now.ephemeral)
      × (anew.durable ≡ now.durable)
      × ((run (resolved_again (complete_run late reason calls at stale).1)).0
          ≡ ok (
              some (
                ended
                  (begun late mode_name provider_name model_name started_at)
                  late
                  "completed"
                  at
                  (completion reason calls))))
      × ((run (resolved_again (fail_run late failure at stale).1)).0
          ≡ ok (
              some (
                ended
                  (begun late mode_name provider_name model_name started_at)
                  late
                  "failed"
                  at
                  (failed failure))))
unfolding begin_run complete_run fail_run run state
late_report s late live mode_name provider_name model_name started_at writable ne reason failure at
      calls =
    let first = begun late mode_name provider_name model_name started_at in
    let second = begun live mode_name provider_name model_name started_at in
    let mine = stored_state (put "run" (obj first) (state_of s)) s in
    let again = resolved_again mine in
    let now = stored_state (put "run" (obj second) (state_of again)) again in
    let stale : Session = record mine { ephemeral = now.ephemeral; durable = now.durable } in
    let read : get "run" (state_of (resolved_again now)) ≡ some (obj second) =
      rw (reread "run" (obj second) again) (get-put_self "run" (obj second) (state_of again)) in
    let own : get "run" (state_of stale) ≡ some (obj first) =
      get-put_self "run" (obj first) (state_of s) in
    rw (write-live "run" (obj first) s writable, write-live "run" (obj second) again writable)
      (
        finish_run-newer late "completed" (completion reason calls) at (resolved_again now) second
            live read refl ne,
        finish_run-newer late "failed" (failed failure) at (resolved_again now) second live read
            refl ne,
        refl,
        refl,
        finish_run-own late "completed" (completion reason calls) at stale first writable own refl
            refl,
        finish_run-own late "failed" (failed failure) at stale first writable own refl refl,
      )
