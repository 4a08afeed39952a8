-- ===== src/IoManager/Fire.antt =====
-- Several events of one descriptor that are triggered, as cancelAll and the loop of idle do.
use fatdog.Base.{
  ℕ, ◌≡◌, refl, sym, ap, ◌∙◌, List, [], ◌++◌, none, Bool, true, false, if◌then◌else◌, arith, inl,
  inr, Bool-cases, append-nil,
}
use fatdog.Base.Words.{sub64}
use fatdog.IoManager.Flags.{Event, read, write, Events, no_events, has, left}
use fatdog.IoManager.{
  Task, FdContext, returns, aborts, ◌>>=◌, get_context, trigger_event, trigger_if, ready_event,
}
use fatdog.IoManager.Trigger.{dropped, dropped-IsArmed, tasks_of, trigger_event_lem}
use fatdog.IoManager.Valid.{IsArmed}

-- The context behind a call of triggerEvent, where the test holds.
abbrev pub step : Bool → Event → FdContext → FdContext
step b event c =
    if b then dropped event (record (get_context event c) { scheduler = none }) c else c

abbrev pub step_tasks : Bool → Event → FdContext → List (ℕ × Task)
step_tasks b event c = if b then tasks_of (get_context event c) else []

pub step-IsArmed : (b : Bool) (event : Event) (c : FdContext) → IsArmed c → IsArmed (step b event c)
step-IsArmed true event c armed =
    dropped-IsArmed event (record (get_context event c) { scheduler = none }) c armed
step-IsArmed false event c armed = armed

-- The behaviour of one `if`.
pub trigger_if_lem :
    (event : Event) (c : FdContext) (tasks : List (ℕ × Task)) (b : Bool)
    → has event c.events ≡ b
    → IsArmed c
    → trigger_if event (c, tasks) ≡ returns (step b event c, tasks ++ step_tasks b event c)
trigger_if_lem event c tasks true h armed =
    ap
      (λ b.
        if b
        then (trigger_event event c >>= λ r. returns (r.0, tasks ++ r.1))
        else returns (c, tasks))
      h
    ∙ ap (λ o. o >>= λ r. returns (r.0, tasks ++ r.1)) (trigger_event_lem event c h armed)
trigger_if_lem event c tasks false h armed =
    ap
      (λ b.
        if b
        then (trigger_event event c >>= λ r. returns (r.0, tasks ++ r.1))
        else returns (c, tasks))
      h
    ∙ ap (λ ts. returns (c, ts)) (sym (append-nil tasks))

abbrev pub one_less_if : Bool → ℕ → ℕ
one_less_if b p = if b then sub64 p 1 else p

pub ready_event_lem :
    (b : Bool) (event : Event) (c : FdContext) (tasks : List (ℕ × Task)) (p : ℕ)
    → (b ≡ true → has event c.events ≡ true)
    → IsArmed c
    → ready_event b event (c, tasks, p)
      ≡ returns (step b event c, tasks ++ step_tasks b event c, one_less_if b p)
ready_event_lem true event c tasks p h armed =
    ap (λ o. o >>= λ r. returns (r.0, tasks ++ r.1, sub64 p 1))
      (trigger_event_lem event c (h refl) armed)
ready_event_lem false event c tasks p h armed =
    ap (λ ts. returns (c, ts, p)) (sym (append-nil tasks))

pub ready_event-aborts :
    (event : Event) (c : FdContext) (tasks : List (ℕ × Task)) (p : ℕ)
    → has event c.events ≡ false
    → ready_event true event (c, tasks, p) ≡ aborts
unfolding trigger_event
ready_event-aborts event c tasks p h = rw h refl

-- Both events.
abbrev pub both : Events → FdContext → FdContext
both es c = step es.write write (step es.read read c)

abbrev pub both_tasks : Events → FdContext → List (ℕ × Task)
both_tasks es c = step_tasks es.read read c ++ step_tasks es.write write c

pub write-step :
    (b : Bool) (c : FdContext)
    → (has write (step b read c).events ≡ has write c.events)
      × (get_context write (step b read c) ≡ get_context write c)
write-step true c = (refl, refl)
write-step false c = (refl, refl)

pub events-both : (es : Events) (c : FdContext) → (both es c).events ≡ left c.events es
events-both es c = elim (Bool-cases es.read) [
  | inl r ↦ elim (Bool-cases es.write) [ inl w ↦ rw (r, w) refl | inr w ↦ rw (r, w) refl ]
  | inr r ↦ elim (Bool-cases es.write) [ inl w ↦ rw (r, w) refl | inr w ↦ rw (r, w) refl ]
]

pub both-IsArmed : (es : Events) (c : FdContext) → IsArmed c → IsArmed (both es c)
both-IsArmed es c armed =
    step-IsArmed es.write write (step es.read read c) (step-IsArmed es.read read c armed)

pub left_self : (es : Events) → left es es ≡ no_events
left_self es = ground arith
