-- ===== src/IoManager/Drop.antt =====
-- delEvent and cancelEvent: an event that is waited for no longer is.
use fatdog.Base.{
  ℕ, ◌+◌, ◌^◌, ◌≤◌, ◌<◌, ◌≡◌, refl, sym, ap, ◌∙◌, List, [], ◌++◌, Option, none, Bool, true, false,
  get_elem?, length, ◌==◌, if◌then◌else◌, arith, inl, inr, Bool-cases, append-nil,
}
use fatdog.Base.Signed.{size_le, size_le-lt}
use fatdog.Base.Words.{sub64, sub64_lem}
use fatdog.IoManager.Flags.{Event, Events, has, without_event, size}
use fatdog.IoManager.{
  Task, EventContext, FdContext, IoManager, EpollCtl, returns, ◌>>=◌, empty_context, get_context,
  set, left_op, deleted, del_from, del_event, triggered, cancelled, cancel_from, cancel_event,
}
use fatdog.IoManager.Table.{
  new_context, context_of, count-le, count-set, get_elem?-context_of, context_of-set, length-set,
}
use fatdog.IoManager.Valid.{IsEpoll, IsValid, refused-IsValid, replaced-IsValid}
use fatdog.IoManager.Trigger.{
  dropped, events-dropped, dropped-IsArmed, size-without_event, effect-left_op, tasks_of,
  trigger_event_lem,
}

module _ {K : Type 0} (epoll_ctl : EpollCtl K) (interest : K → ℕ → Option Events)
    (epoll : IsEpoll epoll_ctl interest) where
  -- The event is dropped: `tasks` are scheduled, and `ctx` is left of its context.
  pub record Dropped (fd : ℕ) (event : Event) (tasks : List (ℕ × Task)) (ctx : EventContext)
      (m m' : IoManager K) : Type 0 where
    pub valid : IsValid interest m'
    pub had : has event (context_of m.contexts fd).events ≡ true
    pub context : context_of m'.contexts fd ≡ dropped event ctx (context_of m.contexts fd)
    pub others : (x : ℕ) → (x == fd) ≡ false → context_of m'.contexts x ≡ context_of m.contexts x
    pub queue : m'.scheduled ≡ m.scheduled ++ tasks
    pub one_less : m'.pending + 1 ≡ m.pending
    pub table : length m'.contexts ≡ length m.contexts

  -- Nothing is changed but the state of the kernel.
  pub record Kept (m m' : IoManager K) : Type 0 where
    pub valid : IsValid interest m'
    pub same_contexts : m'.contexts ≡ m.contexts
    pub same_queue : m'.scheduled ≡ m.scheduled
    pub same_pending : m'.pending ≡ m.pending

  abbrev pub Answered :
      Bool → ℕ → Event → List (ℕ × Task) → EventContext → IoManager K → IoManager K → Type 0
  Answered true fd event tasks ctx m m' = Dropped fd event tasks ctx m m'
  Answered false fd event tasks ctx m m' = Kept m m'

  module _ (m : IoManager K) (v : IsValid interest m) (fd : ℕ) (event : Event) where
    abbrev c : FdContext
    c = context_of m.contexts fd

    -- Whether epoll_ctl accepts what is left of the events.
    abbrev pub accepted : Bool
    accepted = (epoll_ctl (left_op event c) fd (without_event event c.events) m.kernel).0

    abbrev kernel' : K
    kernel' = (epoll_ctl (left_op event c) fd (without_event event c.events) m.kernel).1

    abbrev dropped_from : EventContext → List (ℕ × Task) → IoManager K
    dropped_from ctx queue = record {
      contexts = set m.contexts fd (dropped event ctx c);
      pending = sub64 m.pending 1;
      scheduled = queue;
      kernel = kernel';
    }

    pending_pos :
        fd < length m.contexts → has event c.events ≡ true → sub64 m.pending 1 + 1 ≡ m.pending
    pending_pos h k =
        let some_event = size-without_event event c.events k in
        let listed = count-set m.contexts fd (new_context 0) h in
        let low : 1 ≤ m.pending = omega (arith, some_event, listed, v.counted) in
        let high : m.pending < 2 ^ 64 = omega (arith, v.counted, v.small, count-le m.contexts) in
        omega (arith, sub64_lem m.pending 1 low high)

    dropped_from-Dropped :
        (ctx : EventContext) (tasks queue : List (ℕ × Task))
        → queue ≡ m.scheduled ++ tasks
        → fd < length m.contexts
        → has event c.events ≡ true
        → accepted ≡ true
        → Dropped fd event tasks ctx m (dropped_from ctx queue)
    dropped_from-Dropped ctx tasks queue q h k ok = record {
      valid =
          replaced-IsValid interest m v fd (dropped event ctx c) kernel' (sub64 m.pending 1) queue h
            (dropped-IsArmed event ctx c (v.armed fd))
            (λ x.
              epoll.taken (left_op event c) fd (without_event event c.events) m.kernel ok x
              ∙ ap (λ w. if x == fd then w else interest m.kernel x) (effect-left_op event ctx c))
            (omega (
              arith,
              pending_pos h k,
              size-without_event event c.events k,
              ap size (events-dropped event ctx c),
            ));
      had = k;
      context = context_of-set m.contexts fd (dropped event ctx c) fd h ∙ ground arith;
      others = λ x o. context_of-set m.contexts fd (dropped event ctx c) x h ∙ rw o refl;
      queue = q;
      one_less = pending_pos h k;
      table = length-set m.contexts fd (dropped event ctx c);
    }

    kept_kernel : accepted ≡ false → Kept m (record m { kernel = kernel' })
    kept_kernel no_ok = record {
      valid =
          refused-IsValid interest m v kernel'
            (epoll.refused (left_op event c) fd (without_event event c.events) m.kernel no_ok);
      same_contexts = refl;
      same_queue = refl;
      same_pending = refl;
    }

    same : Kept m m
    same = record { valid = v; same_contexts = refl; same_queue = refl; same_pending = refl }

    -- The descriptor is below the size of the table as an int, the event is waited for, and epoll
    -- lets it go.
    abbrev pub can_drop : Bool
    can_drop =
        if size_le (length m.contexts) fd
        then false
        else if has event c.events
        then accepted
        else false

    within_drop :
        size_le (length m.contexts) fd ≡ false
        → (b d : Bool) → has event c.events ≡ b
        → (if b then accepted else false) ≡ d
        → d ≡ can_drop
    within_drop h b d k e = sym (
        ap (λ o. if o then false else if has event c.events then accepted else false) h
        ∙ ap (λ o. if o then accepted else false) k
        ∙ e)

    out_drop : size_le (length m.contexts) fd ≡ true → false ≡ can_drop
    out_drop h =
        sym (ap (λ o. if o then false else if has event c.events then accepted else false) h)

    del_event-from :
        size_le (length m.contexts) fd ≡ false
        → del_event epoll_ctl fd event m ≡ (
            if has event c.events
            then deleted epoll_ctl fd event m c (accepted, kernel')
            else returns (false, m))
    unfolding del_event
    del_event-from h =
        ap
          (λ o.
            if o
            then returns (false, m)
            else del_from epoll_ctl fd event m (get_elem? m.contexts fd))
          h
        ∙ ap (del_from epoll_ctl fd event m)
            (get_elem?-context_of m.contexts fd (size_le-lt (length m.contexts) fd h))

    cancel_event-from :
        size_le (length m.contexts) fd ≡ false
        → cancel_event epoll_ctl fd event m ≡ (
            if has event c.events
            then cancelled epoll_ctl fd event m c (accepted, kernel')
            else returns (false, m))
    unfolding cancel_event
    cancel_event-from h =
        ap
          (λ o.
            if o
            then returns (false, m)
            else cancel_from epoll_ctl fd event m (get_elem? m.contexts fd))
          h
        ∙ ap (cancel_from epoll_ctl fd event m)
            (get_elem?-context_of m.contexts fd (size_le-lt (length m.contexts) fd h))

    del_from-context :
        size_le (length m.contexts) fd ≡ false
        → has event c.events ≡ true
        → del_event epoll_ctl fd event m ≡ deleted epoll_ctl fd event m c (accepted, kernel')
    del_from-context h k =
        del_event-from h
        ∙ ap
            (λ b.
              if b then deleted epoll_ctl fd event m c (accepted, kernel') else returns (false, m))
            k

    cancel_from-context :
        size_le (length m.contexts) fd ≡ false
        → has event c.events ≡ true
        → cancel_event epoll_ctl fd event m ≡ cancelled epoll_ctl fd event m c (accepted, kernel')
    cancel_from-context h k =
        cancel_event-from h
        ∙ ap
            (λ b.
              if b
              then cancelled epoll_ctl fd event m c (accepted, kernel')
              else returns (false, m))
            k

    -- On a valid manager delEvent returns, for every descriptor, and returns true just where
    -- the size of the table, cast to an int, is larger than the descriptor, the event is waited
    -- for and epoll_ctl accepts what is left. Then the event is gone with its context, one
    -- event less is pending, nothing is scheduled and every other descriptor is as it was;
    -- otherwise nothing is changed. The manager is valid.
    pub del_event-Answered :
        (b : Bool) × (m' : IoManager K) × (del_event epoll_ctl fd event m ≡ returns (b, m'))
        × (b ≡ can_drop)
        × Answered b fd event [] empty_context m m'
    unfolding del_event
    del_event-Answered = elim (Bool-cases (size_le (length m.contexts) fd)) [
      | inl out ↦ (
        false,
        m,
        ap
            (λ o.
              if o
              then returns (false, m)
              else del_from epoll_ctl fd event m (get_elem? m.contexts fd))
            out,
        out_drop out,
        same,
      )
      | inr within ↦ elim (Bool-cases (has event c.events)) [
        | inl k ↦ elim (Bool-cases accepted) [
          | inl ok ↦ (
            true,
            dropped_from empty_context m.scheduled,
            del_from-context within k ∙ ap (λ b. deleted epoll_ctl fd event m c (b, kernel')) ok,
            within_drop within true true k ok,
            dropped_from-Dropped empty_context [] m.scheduled (sym (append-nil m.scheduled))
                (size_le-lt (length m.contexts) fd within) k ok,
          )
          | inr no_ok ↦ (
            false,
            record m { kernel = kernel' },
            del_from-context within k ∙ ap (λ b. deleted epoll_ctl fd event m c (b, kernel')) no_ok,
            within_drop within true false k no_ok,
            kept_kernel no_ok,
          )
        ]
        | inr k ↦ (
          false,
          m,
          del_event-from within
              ∙ ap
                  (λ b.
                    if b
                    then deleted epoll_ctl fd event m c (accepted, kernel')
                    else returns (false, m))
                  k,
          within_drop within false false k refl,
          same,
        )
      ]
    ]

    -- On a valid manager cancelEvent returns, for every descriptor, and returns true just where
    -- the size of the table, cast to an int, is larger than the descriptor, the event is waited
    -- for and epoll_ctl accepts what is left. Then the event is gone, its function or fiber is
    -- scheduled on its scheduler, one event less is pending and every other descriptor is as it
    -- was, while the context keeps its function or fiber and loses its scheduler; otherwise
    -- nothing is changed. The manager is valid.
    pub cancel_event-Answered :
        (b : Bool) × (m' : IoManager K) × (cancel_event epoll_ctl fd event m ≡ returns (b, m'))
        × (b ≡ can_drop)
        × Answered b fd event
            (tasks_of (get_context event c))
            (record (get_context event c) { scheduler = none })
            m
            m'
    unfolding cancel_event
    cancel_event-Answered = elim (Bool-cases (size_le (length m.contexts) fd)) [
      | inl out ↦ (
        false,
        m,
        ap
            (λ o.
              if o
              then returns (false, m)
              else cancel_from epoll_ctl fd event m (get_elem? m.contexts fd))
            out,
        out_drop out,
        same,
      )
      | inr within ↦ elim (Bool-cases (has event c.events)) [
        | inl k ↦ elim (Bool-cases accepted) [
          | inl ok ↦
              let ctx : EventContext = record (get_context event c) { scheduler = none } in
              let tasks = tasks_of (get_context event c) in
              (
                true,
                dropped_from ctx (m.scheduled ++ tasks),
                cancel_from-context within k
                    ∙ ap (λ b. cancelled epoll_ctl fd event m c (b, kernel')) ok
                    ∙ ap
                        (λ o. o >>= λ r. returns (
                          true,
                          record (triggered fd (record m { kernel = kernel' }) r) {
                            pending = sub64 m.pending 1;
                          },
                        ))
                        (trigger_event_lem event c k (v.armed fd)),
                within_drop within true true k ok,
                dropped_from-Dropped ctx tasks (m.scheduled ++ tasks) refl
                    (size_le-lt (length m.contexts) fd within) k ok,
              )
          | inr no_ok ↦ (
            false,
            record m { kernel = kernel' },
            cancel_from-context within k
                ∙ ap (λ b. cancelled epoll_ctl fd event m c (b, kernel')) no_ok,
            within_drop within true false k no_ok,
            kept_kernel no_ok,
          )
        ]
        | inr k ↦ (
          false,
          m,
          cancel_event-from within
              ∙ ap
                  (λ b.
                    if b
                    then cancelled epoll_ctl fd event m c (accepted, kernel')
                    else returns (false, m))
                  k,
          within_drop within false false k refl,
          same,
        )
      ]
    ]
