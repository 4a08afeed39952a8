-- ===== src/IoManager/Cancel.antt =====
-- cancelAll, and an event that is added again behind cancelEvent.
use fatdog.Base.{
  ℕ, ◌+◌, ◌^◌, ◌<◌, ◌≡◌, refl, sym, ap, ◌∙◌, List, [], ◌++◌, Option, none, Bool, true, false, ◌||◌,
  length, ◌==◌, if◌then◌else◌, arith, inl, inr, Bool-cases, subst, get_elem?, lt→not_leb,
}
use fatdog.Base.Signed.{size_le, size_le-lt}
use fatdog.IoManager.Flags.{
  Event, read, write, Events, no_events, has, with_event, without_event, is_none, size,
}
use fatdog.IoManager.{
  add, mod_events, del, Task, FdContext, IoManager, EpollCtl, Outcome, returns, aborts, ◌>>=◌,
  get_context, trigger_if, triggered, add_event, cancel_event, is_set, is_used, EventContext,
  Caller, crash, set, all_cancelled, cancel_all_from, cancel_all,
}
use fatdog.IoManager.Table.{
  context_of, count, count-set, get_elem?-context_of, context_of-set, context_of-set_same,
}
use fatdog.IoManager.Valid.{IsEpoll, IsArmed, IsValid, refused-IsValid}
use fatdog.IoManager.Drop.{Kept, Dropped, Answered, cancel_event-Answered}
use fatdog.IoManager.Trigger.{events-dropped, get_context-dropped, tasks_of}
use mathlib.Core.Bool.{false≢true}
use fatdog.IoManager.Add.{IsTold, add_event-used}
use fatdog.IoManager.Fire.{
  step, step_tasks, step-IsArmed, trigger_if_lem, both, both_tasks, write-step, events-both,
  both-IsArmed, left_self,
}

module _ {K : Type 0} (epoll_ctl : EpollCtl K) (interest : K → ℕ → Option Events)
    (epoll : IsEpoll epoll_ctl interest) where
  -- Every event is dropped and its task scheduled, but the count of pending events stands.
  pub record AllDropped (fd : ℕ) (m m' : IoManager K) : Type 0 where
    pub events : (context_of m'.contexts fd).events ≡ no_events
    pub armed : IsArmed (context_of m'.contexts fd)
    pub others : (x : ℕ) → (x == fd) ≡ false → context_of m'.contexts x ≡ context_of m.contexts x
    pub queue :
        m'.scheduled
        ≡ m.scheduled ++ both_tasks (context_of m.contexts fd).events (context_of m.contexts fd)
    pub unwatched : interest m'.kernel fd ≡ none
    pub others_watched : (x : ℕ) → (x == fd) ≡ false → interest m'.kernel x ≡ interest m.kernel x
    pub same_pending : m'.pending ≡ m.pending
    pub too_many : m'.pending ≡ count m'.contexts + size (context_of m.contexts fd).events

  abbrev pub AllAnswered : Bool → ℕ → IoManager K → IoManager K → Type 0
  AllAnswered true fd m m' = AllDropped fd m m'
  AllAnswered false fd m m' = Kept epoll_ctl interest epoll m m'

  module _ (m : IoManager K) (v : IsValid interest m) (fd : ℕ) where
    abbrev c : FdContext
    c = context_of m.contexts fd

    abbrev accepted : Bool
    accepted = (epoll_ctl del fd no_events m.kernel).0

    abbrev kernel' : K
    kernel' = (epoll_ctl del fd no_events m.kernel).1

    -- The descriptor is below the size of the table as an int, something is waited for, and epoll
    -- lets it go.
    abbrev pub can_drop_all : Bool
    can_drop_all =
        if size_le (length m.contexts) fd
        then false
        else if is_none c.events
        then false
        else accepted

    abbrev all_dropped : IoManager K
    all_dropped = record {
      contexts = set m.contexts fd (both c.events c);
      pending = m.pending;
      scheduled =
          m.scheduled
          ++ (step_tasks c.events.read read c
              ++ step_tasks c.events.write write (step c.events.read read c));
      kernel = kernel';
    }

    events-all : (both c.events c).events ≡ no_events
    events-all = events-both c.events c ∙ left_self c.events

    at_self : fd < length m.contexts → context_of all_dropped.contexts fd ≡ both c.events c
    at_self within = context_of-set_same m.contexts fd (both c.events c) within

    all_dropped-AllDropped : fd < length m.contexts → accepted ≡ true → AllDropped fd m all_dropped
    all_dropped-AllDropped within ok = record {
      events = ap (λ (d : FdContext). d.events) (at_self within) ∙ events-all;
      armed = subst IsArmed (sym (at_self within)) (both-IsArmed c.events c (v.armed fd));
      others = λ x o. context_of-set m.contexts fd (both c.events c) x within ∙ rw o refl;
      queue =
          ap
            (λ ctx.
              m.scheduled
              ++ (step_tasks c.events.read read c ++ (if c.events.write then tasks_of ctx else [])))
            (write-step c.events.read c).1;
      unwatched = epoll.taken del fd no_events m.kernel ok fd ∙ ground arith;
      others_watched = λ x o. epoll.taken del fd no_events m.kernel ok x ∙ rw o refl;
      same_pending = refl;
      too_many =
          omega (
            arith,
            v.counted,
            count-set m.contexts fd (both c.events c) within,
            ap size events-all,
          );
    }

    -- What cancelAll does behind its two calls of triggerEvent.
    abbrev all_checked : FdContext × List (ℕ × Task) → Outcome (Bool × IoManager K)
    all_checked s =
        if is_none s.0.events
        then returns (true, triggered fd (record m { kernel = kernel' }) s)
        else aborts

    all_cancelled-all_dropped :
        all_cancelled epoll_ctl fd m c (true, kernel') ≡ returns (true, all_dropped)
    all_cancelled-all_dropped =
        ap (λ o. o >>= λ r. trigger_if write r >>= all_checked)
          (trigger_if_lem read c [] c.events.read refl (v.armed fd))
        ∙ ap (λ o. o >>= all_checked)
            (trigger_if_lem write (step c.events.read read c) (step_tasks c.events.read read c)
              c.events.write ((write-step c.events.read c).0)
              (step-IsArmed c.events.read read c (v.armed fd)))
        ∙ ap (λ es. if is_none es then returns (true, all_dropped) else aborts) events-all

    same : Kept epoll_ctl interest epoll m m
    same = record { valid = v; same_contexts = refl; same_queue = refl; same_pending = refl }

    -- On a valid manager cancelAll returns, for every descriptor, and returns true just where
    -- the size of the table, cast to an int, is larger than the descriptor, something is waited
    -- for and epoll_ctl accepts to drop it. Then no event is left, what waited to read and then
    -- what waited to write is scheduled, epoll watches the descriptor no more, and every other
    -- is as it was; but the number of pending events is what it was, and is too large by the
    -- events that were dropped. Otherwise nothing is changed.
    pub cancel_all-AllAnswered :
        (b : Bool) × (m' : IoManager K) × (cancel_all epoll_ctl fd m ≡ returns (b, m'))
        × (b ≡ can_drop_all)
        × AllAnswered b fd m m'
    unfolding cancel_all
    cancel_all-AllAnswered = elim (Bool-cases (size_le (length m.contexts) fd)) [
      | inl out ↦ (
        false,
        m,
        ap
            (λ o.
              if o
              then returns (false, m)
              else cancel_all_from epoll_ctl fd m (get_elem? m.contexts fd))
            out,
        sym (ap (λ o. if o then false else if is_none c.events then false else accepted) out),
        same,
      )
      | inr low ↦
          let within = size_le-lt (length m.contexts) fd low in
          let at =
            ap
              (λ o.
                if o
                then returns (false, m)
                else cancel_all_from epoll_ctl fd m (get_elem? m.contexts fd))
              low
            ∙ ap (cancel_all_from epoll_ctl fd m) (get_elem?-context_of m.contexts fd within) in
          let below =
            ap (λ o. if o then false else if is_none c.events then false else accepted) low in
          let on = λ (b : Bool).
            if b then returns (false, m) else all_cancelled epoll_ctl fd m c (accepted, kernel') in
          elim (Bool-cases (is_none c.events)) [
            | inl idle ↦ (
              false,
              m,
              at ∙ ap on idle,
              sym (below ∙ ap (λ b. if b then false else accepted) idle),
              same,
            )
            | inr some_event ↦ elim (Bool-cases accepted) [
              | inl ok ↦ (
                true,
                all_dropped,
                at
                    ∙ ap on some_event
                    ∙ ap (λ b. all_cancelled epoll_ctl fd m c (b, kernel')) ok
                    ∙ all_cancelled-all_dropped,
                sym (below ∙ ap (λ b. if b then false else accepted) some_event ∙ ok),
                all_dropped-AllDropped within ok,
              )
              | inr no_ok ↦ (
                false,
                record m { kernel = kernel' },
                at ∙ ap on some_event ∙ ap (λ b. all_cancelled epoll_ctl fd m c (b, kernel')) no_ok,
                sym (below ∙ ap (λ b. if b then false else accepted) some_event ∙ no_ok),
                record {
                  valid =
                      refused-IsValid interest m v kernel'
                        (epoll.refused del fd no_events m.kernel no_ok);
                  same_contexts = refl;
                  same_queue = refl;
                  same_pending = refl;
                },
              )
            ]
          ]
    ]

-- What a call returned, where it did.
abbrev value {ℓ} : {A : Type ℓ} → A → Outcome A → A
value d (returns a) = a
value d aborts = d
value d crash = d

has-without_event : (event : Event) (es : Events) → has event (without_event event es) ≡ false
has-without_event read es = refl
has-without_event write es = refl

can_drop-within : (b d : Bool) → (if b then false else d) ≡ true → b ≡ false
can_drop-within true d h = absurd (false≢true h)
can_drop-within false d h = refl

module _ {K : Type 0} (epoll_ctl : EpollCtl K) (interest : K → ℕ → Option Events)
    (epoll : IsEpoll epoll_ctl interest) (m m' : IoManager K) (v : IsValid interest m) (fd : ℕ)
    (event : Event) (h : cancel_event epoll_ctl fd event m ≡ returns (true, m')) where
  abbrev ctx : EventContext
  ctx = get_context event (context_of m.contexts fd)

  cancelled_lem :
      (size_le (length m.contexts) fd ≡ false)
      × Dropped epoll_ctl interest epoll fd event
          (tasks_of ctx)
          (record ctx { scheduler = none })
          m
          m'
  cancelled_lem =
      let (b, m1, e, why, answered) = cancel_event-Answered epoll_ctl interest epoll m v fd event in
      let same_result = ap (value (true, m')) (sym e ∙ h) in
      (
        can_drop-within (size_le (length m.contexts) fd) _
            (sym why ∙ ap (λ (r : Bool × IoManager K). r.0) same_result),
        subst
            (λ (r : Bool × IoManager K).
              Answered epoll_ctl interest epoll r.0 fd event (tasks_of ctx)
                (record ctx { scheduler = none }) m r.1)
            same_result answered,
      )

  cancelled-Dropped :
      Dropped epoll_ctl interest epoll fd event
        (tasks_of ctx)
        (record ctx { scheduler = none })
        m
        m'
  cancelled-Dropped = cancelled_lem.1

  -- The descriptor is below the size of the table as an int, before and behind the call.
  cancelled-IsTold : IsTold epoll_ctl interest epoll m' fd
  cancelled-IsTold =
      let low : size_le (length m'.contexts) fd ≡ false =
        ap (λ n. size_le n fd) cancelled-Dropped.table ∙ cancelled_lem.0 in
      low ∙ sym (lt→not_leb (length m'.contexts) fd (size_le-lt (length m'.contexts) fd low))

  -- On a valid manager, behind a cancelEvent that returned true for an event with a function or a
  -- fiber, addEvent of the same event that epoll_ctl accepts fails an assertion, for a descriptor
  -- below 2^31.
  pub cancel_event-add_event :
      (f : Option ℕ) (caller : Caller)
      → fd < 2 ^ 31
      → (is_set ctx.fiber || is_set ctx.cb) ≡ true
      → (let c = context_of m'.contexts fd in
          epoll_ctl
            (if is_none c.events then add else mod_events)
            fd
            (with_event event c.events)
            m'.kernel).0
        ≡ true
      → add_event epoll_ctl fd event f caller m' ≡ aborts
  cancel_event-add_event f caller small waiting ok =
      add_event-used epoll_ctl interest epoll m' cancelled-Dropped.valid fd small cancelled-IsTold
        event f caller
        (ap (λ (c : FdContext). has event c.events) cancelled-Dropped.context
          ∙ ap (has event)
              (events-dropped event (record ctx { scheduler = none }) (context_of m.contexts fd))
          ∙ has-without_event event (context_of m.contexts fd).events)
        (ap (λ (c : FdContext). is_used (get_context event c)) cancelled-Dropped.context
          ∙ ap is_used (
              get_context-dropped event (record ctx { scheduler = none })
                (context_of m.contexts fd))
          ∙ waiting)
        ok
