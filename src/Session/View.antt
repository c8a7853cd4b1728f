-- ===== src/Session/View.antt =====
-- A read-only view of a session changes nothing that is kept.
use prism_harness_py.Prelude.{
  String, true, false, Option, none, some, List, [], ◌∷◌, ◌≡◌, refl, inl, inr, ◌∙◌, Option-cases,
  if◌then◌else◌,
}
use prism_harness_py.Value.{Fields, obj, get}
use prism_harness_py.Result.{ok}
use prism_harness_py.Exec.{Exec, pure, gets, modify, ◌>>=◌}
use prism_harness_py.Store.{World, Durability}
use prism_harness_py.Tasks.Lease.{Seconds}
use prism_harness_py.Tasks.Source.{Source}
use prism_harness_py.Session.{
  Session, state, mode, model, provider, run, using_mode, using_model, using_provider, forget,
  using_capability, forget_capability, begin_run, complete_run, fail_run, resolve_read_only, write,
  finish_run, state_of, finish_from, is_run, ended, thread, find_thread, tasks, lock, capability,
  run_in, completion, failed,
}

-- The calls that code which is handed a session can make of it, but for a view of its own. The calls
-- that only tell its key or its address change nothing and are left out.
pub data Call : Type 0 where
  reads_state reads_mode reads_model reads_provider reads_run forgets : Call
  reads_capability : String → Call
  finds_thread : Call
  uses_thread : (used : String → World → World) → Call
  uses_tasks : (durability : Durability) (lease : Seconds) (used : Source → World → World) → Call
  locks : (callback : Session → Session) → Call
  uses_mode uses_model uses_provider forgets_capability : String → Call
  uses_capability : String → Fields → Call
  begins_run : (run_id mode provider model started_at : String) → Call
  completes_run : (run_id reason : String) (calls : List String) (at : String) → Call
  fails_run : (run_id failure at : String) → Call

abbrev after : {A : Type 0} → Exec Session A → Session → Session
after m s = (m s).1

-- What is done with a thread or a task source that the session gave, which both stand over the
-- durable store.
abbrev on_durable : {A : Type 0} → (A → World → World) → A → Exec Session (Unit {0})
on_durable used a = modify (λ s. record s { durable = used a s.durable })

abbrev does : (Session → Session) → Exec Session (Unit {0})
does callback s = (ok tt, callback s)

-- The session after a call, whether it raised or not: its caller may catch what it raises.
abbrev pub perform : Call → Session → Session
perform reads_state = after state
perform reads_mode = after mode
perform reads_model = after model
perform reads_provider = after provider
perform reads_run = after run
perform forgets = after forget
perform (reads_capability name) = after (gets (capability name))
perform finds_thread = after find_thread
perform (uses_thread used) = after (thread >>= on_durable used)
perform (uses_tasks durability lease used) = after (tasks durability lease >>= on_durable used)
perform (locks callback) = after (lock (does callback))
perform (uses_mode m) = after (using_mode m)
perform (uses_model m) = after (using_model m)
perform (uses_provider p) = after (using_provider p)
perform (uses_capability name d) = after (using_capability name d)
perform (forgets_capability name) = after (forget_capability name)
perform (begins_run id m p o at) = after (begin_run id m p o at)
perform (completes_run id reason calls at) = after (complete_run id reason calls at)
perform (fails_run id failure at) = after (fail_run id failure at)

abbrev pub perform_all : List Call → Session → Session
perform_all [] s = s
perform_all (c ∷ calls) s = perform_all calls (perform c s)

-- Of one view the next: the same stores, and as little writable.
record SameStores (s t : Session) : Type 0 where
  ephemeral : t.ephemeral ≡ s.ephemeral
  durable : t.durable ≡ s.durable
  resolution_only : t.resolution_only ≡ true

unchanged : (s t : Session) → s.resolution_only ≡ true → t ≡ s → SameStores s t
unchanged s t only same =
    rw same (record { ephemeral = refl; durable = refl; resolution_only = only })

finish_from-refused :
    (id status : String) (extra : Fields) (at : String) (current : Option Fields) (s : Session)
    → s.resolution_only ≡ true
    → (finish_from id status extra at current s).1 ≡ s
finish_from-refused id status extra at none s only = rw only refl
finish_from-refused id status extra at (some d) s only =
    elim (is_run id d)
      as (λ b. ((if b then write "run" (obj (ended d id status at extra)) else pure tt) s).1 ≡ s) [
        | true ↦ rw only refl
        | false ↦ refl
      ]

finish_run-refused :
    (id status : String) (extra : Fields) (at : String) (s : Session)
    → s.resolution_only ≡ true
    → SameStores s (finish_run id status extra at s).1
unfolding run state
finish_run-refused id status extra at s only =
    let kept : Session = record s { cached = some (state_of s) } in
    rw (finish_from-refused id status extra at (run_in (get "run" (state_of s))) kept only)
      (record { ephemeral = refl; durable = refl; resolution_only = only })

perform-refused : (c : Call) (s : Session) → s.resolution_only ≡ true → SameStores s (perform c s)
unfolding state mode model provider run forget using_mode using_model using_provider
    using_capability forget_capability begin_run complete_run fail_run thread find_thread tasks lock
perform-refused reads_state s only = record {
  ephemeral = refl;
  durable = refl;
  resolution_only = only;
}
perform-refused reads_mode s only = elim (Option-cases s.resolved_mode) [
  | inl is ↦ rw is (record { ephemeral = refl; durable = refl; resolution_only = only })
  | inr (m, is) ↦ rw is (record { ephemeral = refl; durable = refl; resolution_only = only })
]
perform-refused reads_model s only = record {
  ephemeral = refl;
  durable = refl;
  resolution_only = only;
}
perform-refused reads_provider s only = record {
  ephemeral = refl;
  durable = refl;
  resolution_only = only;
}
perform-refused reads_run s only = record {
  ephemeral = refl;
  durable = refl;
  resolution_only = only;
}
perform-refused forgets s only = unchanged s _ only (rw only refl)
perform-refused (reads_capability name) s only = unchanged s s only refl
perform-refused finds_thread s only = unchanged s _ only (rw only refl)
perform-refused (uses_thread used) s only = unchanged s _ only (rw only refl)
perform-refused (uses_tasks durability lease used) s only = unchanged s _ only (rw only refl)
perform-refused (locks callback) s only = unchanged s _ only (rw only refl)
perform-refused (uses_mode m) s only = unchanged s _ only (rw only refl)
perform-refused (uses_model m) s only = unchanged s _ only (rw only refl)
perform-refused (uses_provider p) s only = unchanged s _ only (rw only refl)
perform-refused (uses_capability name d) s only = unchanged s _ only (rw only refl)
perform-refused (forgets_capability name) s only = unchanged s _ only (rw only refl)
perform-refused (begins_run id m p o at) s only = unchanged s _ only (rw only refl)
perform-refused (completes_run id reason calls at) s only =
    finish_run-refused id "completed" (completion reason calls) at s only
perform-refused (fails_run id failure at) s only =
    finish_run-refused id "failed" (failed failure) at s only

perform_all-refused :
    (calls : List Call) (s : Session)
    → s.resolution_only ≡ true
    → SameStores s (perform_all calls s)
perform_all-refused [] s only = unchanged s s only refl
perform_all-refused (c ∷ calls) s only =
    let one = perform-refused c s only in
    let rest = perform_all-refused calls (perform c s) one.resolution_only in
    record {
      ephemeral = rest.ephemeral ∙ one.ephemeral;
      durable = rest.durable ∙ one.durable;
      resolution_only = rest.resolution_only;
    }

-- Code that is handed a session only to resolve tools may make any calls of it but for a view of its
-- own, in any order, go on after those that are refused, use a thread or a task source that it gets
-- in any way and hand its lock any callback: the session and both its stores are afterwards as they
-- were.
pub resolve_read_only-unchanged :
    (m : String) (calls : List Call) (s : Session)
    → resolve_read_only m (λ view. (ok tt, perform_all calls view)) s ≡ (ok tt, s)
unfolding resolve_read_only
resolve_read_only-unchanged m calls s =
    let view : Session = record s {
      cached = none;
      resolution_only = true;
      resolved_mode = some m;
    } in
    let kept = perform_all-refused calls view refl in rw (kept.ephemeral, kept.durable) refl
