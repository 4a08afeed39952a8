-- ===== src/IoManager/Trigger.antt =====
-- triggerEvent, and a context without an event.
use fatdog.Base.{
  ℕ, ◌+◌, ◌≡◌, refl, List, [], Option, none, some, Bool, true, false, if◌then◌else◌, arith,
}
use fatdog.IoManager.Flags.{Event, read, write, Events, has, without_event, is_none, size}
use fatdog.IoManager.{
  mod_events, del, Task, EventContext, FdContext, returns, get_context, set_context, waiting_task,
  trigger_event, fired, is_set, left_op,
}
use fatdog.IoManager.Valid.{effect, watched, IsArmed}
use mathlib.Core.Bool.{false≢true}

-- The context with an event dropped and its EventContext replaced.
abbrev pub dropped : Event → EventContext → FdContext → FdContext
dropped event ctx c = set_context event ctx (record c { events = without_event event c.events })

pub events-dropped :
    (event : Event) (ctx : EventContext) (c : FdContext)
    → (dropped event ctx c).events ≡ without_event event c.events
events-dropped read ctx c = refl
events-dropped write ctx c = refl

pub get_context-dropped :
    (event : Event) (ctx : EventContext) (c : FdContext)
    → get_context event (dropped event ctx c) ≡ ctx
get_context-dropped read ctx c = refl
get_context-dropped write ctx c = refl

pub dropped-IsArmed :
    (event : Event) (ctx : EventContext) (c : FdContext) → IsArmed c → IsArmed (dropped event ctx c)
dropped-IsArmed read ctx c armed read h = absurd (false≢true h)
dropped-IsArmed read ctx c armed write h = armed write h
dropped-IsArmed write ctx c armed read h = armed read h
dropped-IsArmed write ctx c armed write h = absurd (false≢true h)

pub size-without_event :
    (event : Event) (es : Events)
    → has event es ≡ true
    → size (without_event event es) + 1 ≡ size es
size-without_event read es h = rw h (omega arith)
size-without_event write es h = rw h (omega arith)

pub effect-op :
    (b : Bool) (es : Events)
    → effect (if b then del else mod_events) es ≡ (if b then none else some es)
effect-op true es = refl
effect-op false es = refl

pub effect-left_op :
    (event : Event) (ctx : EventContext) (c : FdContext)
    → effect (left_op event c) (without_event event c.events) ≡ watched (dropped event ctx c)
effect-left_op read ctx c =
    effect-op (is_none (without_event read c.events)) (without_event read c.events)
effect-left_op write ctx c =
    effect-op (is_none (without_event write c.events)) (without_event write c.events)

-- The task that waits in a context.
abbrev pub tasks_for : EventContext → Option ℕ → List (ℕ × Task)
tasks_for ctx none = []
tasks_for ctx (some s) = waiting_task s ctx.fiber ctx.cb

abbrev pub tasks_of : EventContext → List (ℕ × Task)
tasks_of ctx = tasks_for ctx ctx.scheduler

fired_lem :
    (event : Event) (c : FdContext) (s : Option ℕ)
    → is_set s ≡ true
    → fired event c s
      ≡ returns (
        dropped event (record (get_context event c) { scheduler = none }) c,
        tasks_for (get_context event c) s,
      )
fired_lem event c none h = absurd (false≢true h)
fired_lem event c (some s) h = refl

-- triggerEvent of an event that is waited for by a scheduler.
pub trigger_event_lem :
    (event : Event) (c : FdContext)
    → has event c.events ≡ true
    → IsArmed c
    → trigger_event event c
      ≡ returns (
        dropped event (record (get_context event c) { scheduler = none }) c,
        tasks_of (get_context event c),
      )
unfolding trigger_event
trigger_event_lem event c h armed =
    rw h (fired_lem event c (get_context event c).scheduler (armed event h))
