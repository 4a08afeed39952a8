-- ===== src/IoManager.antt =====
-- fatdog/iomanager.cpp and iomanager.h: which fibers and functions wait for which descriptors.
-- epoll_ctl is a parameter, on a state of the kernel that is handed on. The pointer to an FdContext
-- that an event carries is its descriptor, which is its place in the table.
pub mod Flags
pub mod Table
pub mod Valid
pub mod Trigger
pub mod Drop
pub mod Add
pub mod Fire
pub mod Ready
pub mod Cancel
pub mod Idle
pub mod Keeps
pub mod Reach
mod Runs
use fatdog.Base.{
  ℕ, zero, suc, ◌+◌, ◌-◌, ◌*◌, ◌/◌, ◌^◌, List, [], ◌∷◌, ◌++◌, Option, none, some, Bool, true, false,
  not, length, take, get_elem?, ltb, leb, ◌==◌, if◌then◌else◌, ◌&&◌, ◌||◌,
}
use fatdog.Base.Signed.{ℤ, pos, negsuc, to_signed, size_le}
use fatdog.Base.Words.{add64, sub64}
use fatdog.IoManager.Flags.{
  Event, read, write, Events, no_events, has, with_event, without_event, is_none, common, left,
}

-- EPOLL_CTL_ADD, EPOLL_CTL_MOD and EPOLL_CTL_DEL.
pub data Op : Type 0 where
  add mod_events del : Op

-- What waits: a function, or a fiber.
pub data Task : Type 0 where
  cb : ℕ → Task
  fiber : ℕ → Task

pub record EventContext : Type 0 where
  pub scheduler : Option ℕ
  pub fiber : Option ℕ
  pub cb : Option ℕ

pub record FdContext : Type 0 where
  pub read : EventContext
  pub write : EventContext
  pub fd : ℕ
  pub events : Events

-- A call returns, or fails an assertion, or does what C++ leaves undefined.
pub data Outcome {ℓ} (A : Type ℓ) : Type ℓ where
  returns : A → Outcome A
  aborts : Outcome A
  crash : Outcome A

infixl 5 ◌>>=◌
abbrev pub ◌>>=◌ {ℓ κ} : {A : Type ℓ} {B : Type κ} → Outcome A → (A → Outcome B) → Outcome B
returns a >>= f = f a
aborts >>= f = aborts
crash >>= f = crash

-- `scheduled` are the tasks handed to Scheduler::schedule, with the scheduler, oldest first.
pub record IoManager (K : Type 0) : Type 0 where
  pub contexts : List FdContext
  pub pending : ℕ
  pub scheduled : List (ℕ × Task)
  pub kernel : K

-- The thread of a call: Scheduler::GetThis(), Fiber::GetThis(), and whether that fiber is in EXEC.
pub record Caller : Type 0 where
  pub scheduler : Option ℕ
  pub fiber : ℕ
  pub executing : Bool

-- epoll_ctl(m_epfd, op, fd, events): whether it returned 0, and the kernel behind it.
abbrev pub EpollCtl : Type 0 → Type 0
EpollCtl K = Op → ℕ → Events → K → Bool × K

-- An event of epoll_wait: of the pipe, or of the FdContext of a descriptor, with its EPOLLIN, its
-- EPOLLOUT, and whether it has EPOLLERR or EPOLLHUP.
pub data EpollEvent : Type 0 where
  tickled : EpollEvent
  ready : ℕ → Bool → Bool → Bool → EpollEvent

abbrev pub empty_context : EventContext
empty_context = record { scheduler = none; fiber = none; cb = none }

-- getContext(event), and the assignment to what it refers to.
abbrev pub get_context : Event → FdContext → EventContext
get_context read c = c.read
get_context write c = c.write

abbrev pub set_context : Event → EventContext → FdContext → FdContext
set_context read ctx c = record c { read = ctx }
set_context write ctx c = record c { write = ctx }

-- resetContext(ctx)
abbrev pub reset_context : Event → FdContext → FdContext
reset_context event c = set_context event empty_context c

-- The task that schedule is given: the function, or else the fiber; for neither, nothing is queued.
abbrev pub waiting_task : ℕ → Option ℕ → Option ℕ → List (ℕ × Task)
waiting_task s fib (some f) = (s, cb f) ∷ []
waiting_task s (some f) none = (s, fiber f) ∷ []
waiting_task s none none = []

-- The part of triggerEvent behind its assertion, by the scheduler of the event's context.
abbrev pub fired : Event → FdContext → Option ℕ → Outcome (FdContext × List (ℕ × Task))
fired event c none = crash
fired event c (some s) =
    let ctx = get_context event c in
    returns (
      set_context event (record ctx { scheduler = none })
          (record c { events = without_event event c.events }),
      waiting_task s ctx.fiber ctx.cb,
    )

-- triggerEvent(event)
unfoldable pub trigger_event : Event → FdContext → Outcome (FdContext × List (ℕ × Task))
trigger_event event c =
    if has event c.events then fired event c (get_context event c).scheduler else aborts

-- The contexts that contextResize makes for the null places from `i` on.
abbrev pub new_contexts : ℕ → ℕ → List FdContext
new_contexts i zero = []
new_contexts i (suc n) =
    record { read = empty_context; write = empty_context; fd = i; events = no_events }
    ∷ new_contexts (suc i) n

-- contextResize(size)
abbrev pub context_resize : ℕ → List FdContext → List FdContext
context_resize size cs = take size cs ++ new_contexts (length cs) (size - length cs)

-- The manager behind its constructor; the descriptor of its pipe is no context's.
abbrev pub new_manager : {K : Type 0} → K → IoManager K
new_manager k = record { contexts = context_resize 32 []; pending = 0; scheduled = []; kernel = k }

-- The table that addEvent looks the descriptor up in: grown, or cut, where (int)size <= fd.
abbrev pub reached : ℕ → List FdContext → List FdContext
reached fd cs = if size_le (length cs) fd then context_resize (fd * 3 / 2) cs else cs

-- The table with another context in a place.
abbrev pub set : List FdContext → ℕ → FdContext → List FdContext
set [] i c = []
set (x ∷ cs) zero c = c ∷ cs
set (x ∷ cs) (suc i) c = x ∷ set cs i c

abbrev pub is_set : Option ℕ → Bool
is_set none = false
is_set (some p) = true

-- Whether a context holds a scheduler, a fiber or a function.
abbrev pub is_used : EventContext → Bool
is_used ctx = is_set ctx.scheduler || is_set ctx.fiber || is_set ctx.cb

-- What addEvent leaves in the context of the event.
abbrev pub registered : Option ℕ → Caller → EventContext
registered none caller = record {
  scheduler = caller.scheduler;
  fiber = some caller.fiber;
  cb = none;
}
registered (some f) caller = record { scheduler = caller.scheduler; fiber = none; cb = some f }

-- The manager with a context and tasks that triggerEvent has left.
abbrev pub triggered : {K : Type 0} → ℕ → IoManager K → FdContext × List (ℕ × Task) → IoManager K
triggered fd m (c, tasks) = record m {
  contexts = set m.contexts fd c;
  scheduled = m.scheduled ++ tasks;
}

-- `if (events & event) triggerEvent(event)`, on a context and the tasks so far.
abbrev pub trigger_if : Event → FdContext × List (ℕ × Task) → Outcome (FdContext × List (ℕ × Task))
trigger_if event (c, tasks) =
    if has event c.events
    then (trigger_event event c >>= λ r. returns (r.0, tasks ++ r.1))
    else returns (c, tasks)

-- The `if` of idle for one of the real events: triggerEvent, and one pending event less.
abbrev pub ready_event :
    Bool → Event → FdContext × List (ℕ × Task) × ℕ → Outcome (FdContext × List (ℕ × Task) × ℕ)
ready_event false event r = returns r
ready_event true event (c, tasks, pending) =
    trigger_event event c >>= λ r. returns (r.0, tasks ++ r.1, sub64 pending 1)

-- What epoll_ctl is asked for where an event goes.
abbrev pub left_op : Event → FdContext → Op
left_op event c = if is_none (without_event event c.events) then del else mod_events

module _ {K : Type 0} (epoll_ctl : EpollCtl K) where
  -- addEvent on the context `c` of the descriptor, behind its call of epoll_ctl.
  abbrev pub added :
      ℕ → Event → Option ℕ → Caller → IoManager K → FdContext → Bool × K → Outcome (ℤ × IoManager K)
  added fd event f caller m c (false, k) = returns (negsuc 0, record m { kernel = k })
  added fd event f caller m c (true, k) =
      if is_used (get_context event c)
      then aborts
      else if is_set f || caller.executing
      then returns (
        pos 0,
        record m {
          contexts = set m.contexts fd (
              set_context event (registered f caller)
                (record c { events = with_event event c.events }));
          pending = add64 m.pending 1;
          kernel = k;
        },
      )
      else aborts

  abbrev pub add_to :
      ℕ → Event → Option ℕ → Caller → IoManager K → Option FdContext → Outcome (ℤ × IoManager K)
  add_to fd event f caller m none = crash
  add_to fd event f caller m (some c) =
      if has event c.events
      then aborts
      else added fd event f caller m c (
          epoll_ctl (if is_none c.events then add else mod_events) fd (with_event event c.events)
            m.kernel)

  -- addEvent(fd, event, cb), for a descriptor that is not negative.
  unfoldable pub add_event : ℕ → Event → Option ℕ → Caller → IoManager K → Outcome (ℤ × IoManager K)
  add_event fd event f caller m =
      add_to fd event f caller (record m { contexts = reached fd m.contexts })
        (get_elem? (reached fd m.contexts) fd)

  -- delEvent on the context `c`, behind its call of epoll_ctl.
  abbrev pub deleted : ℕ → Event → IoManager K → FdContext → Bool × K → Outcome (Bool × IoManager K)
  deleted fd event m c (false, k) = returns (false, record m { kernel = k })
  deleted fd event m c (true, k) = returns (
    true,
    record m {
      contexts =
          set m.contexts fd
            (reset_context event (record c { events = without_event event c.events }));
      pending = sub64 m.pending 1;
      kernel = k;
    },
  )

  abbrev pub del_from : ℕ → Event → IoManager K → Option FdContext → Outcome (Bool × IoManager K)
  del_from fd event m none = crash
  del_from fd event m (some c) =
      if has event c.events
      then deleted fd event m c
          (epoll_ctl (left_op event c) fd (without_event event c.events) m.kernel)
      else returns (false, m)

  -- delEvent(fd, event)
  unfoldable pub del_event : ℕ → Event → IoManager K → Outcome (Bool × IoManager K)
  del_event fd event m =
      if size_le (length m.contexts) fd
      then returns (false, m)
      else del_from fd event m (get_elem? m.contexts fd)

  -- cancelEvent on the context `c`, behind its call of epoll_ctl.
  abbrev pub cancelled :
      ℕ → Event → IoManager K → FdContext → Bool × K → Outcome (Bool × IoManager K)
  cancelled fd event m c (false, k) = returns (false, record m { kernel = k })
  cancelled fd event m c (true, k) = trigger_event event c >>= λ r.
      returns
        (true, record (triggered fd (record m { kernel = k }) r) { pending = sub64 m.pending 1 })

  abbrev pub cancel_from : ℕ → Event → IoManager K → Option FdContext → Outcome (Bool × IoManager K)
  cancel_from fd event m none = crash
  cancel_from fd event m (some c) =
      if has event c.events
      then cancelled fd event m c
          (epoll_ctl (left_op event c) fd (without_event event c.events) m.kernel)
      else returns (false, m)

  -- cancelEvent(fd, event)
  unfoldable pub cancel_event : ℕ → Event → IoManager K → Outcome (Bool × IoManager K)
  cancel_event fd event m =
      if size_le (length m.contexts) fd
      then returns (false, m)
      else cancel_from fd event m (get_elem? m.contexts fd)

  -- cancelAll on the context `c`, behind its call of epoll_ctl.
  abbrev pub all_cancelled : ℕ → IoManager K → FdContext → Bool × K → Outcome (Bool × IoManager K)
  all_cancelled fd m c (false, k) = returns (false, record m { kernel = k })
  all_cancelled fd m c (true, k) = trigger_if read (c, []) >>= λ r. trigger_if write r >>= λ s.
      if is_none s.0.events
      then returns (true, triggered fd (record m { kernel = k }) s)
      else aborts

  abbrev pub cancel_all_from : ℕ → IoManager K → Option FdContext → Outcome (Bool × IoManager K)
  cancel_all_from fd m none = crash
  cancel_all_from fd m (some c) =
      if is_none c.events
      then returns (false, m)
      else all_cancelled fd m c (epoll_ctl del fd no_events m.kernel)

  -- cancelAll(fd)
  unfoldable pub cancel_all : ℕ → IoManager K → Outcome (Bool × IoManager K)
  cancel_all fd m =
      if size_le (length m.contexts) fd
      then returns (false, m)
      else cancel_all_from fd m (get_elem? m.contexts fd)

  -- The body of the loop of idle on the context `c` and the real events, behind epoll_ctl.
  abbrev pub readied : ℕ → Events → IoManager K → FdContext → Bool × K → Outcome (IoManager K)
  readied fd real m c (false, k) = returns (record m { kernel = k })
  readied fd real m c (true, k) = ready_event real.read read (c, [], m.pending) >>= λ r.
      ready_event real.write write r >>= λ (s : FdContext × List (ℕ × Task) × ℕ).
      returns (record (triggered fd (record m { kernel = k }) (s.0, s.1)) { pending = s.2 })

  abbrev pub ready_on : ℕ → Events → IoManager K → Option FdContext → Outcome (IoManager K)
  ready_on fd real m none = crash
  ready_on fd real m (some c) =
      if is_none (common c.events real)
      then returns m
      else readied fd real m c (
          epoll_ctl (if is_none (left c.events real) then del else mod_events) fd
            (left c.events real) m.kernel)

  -- The body of the loop of idle over the events of epoll_wait.
  unfoldable pub handle_event : EpollEvent → IoManager K → Outcome (IoManager K)
  handle_event tickled m = returns m
  handle_event (ready fd epollin epollout err_or_hup) m =
      ready_on fd (record { read = epollin || err_or_hup; write = epollout || err_or_hup }) m
        (get_elem? m.contexts fd)

  -- The loop.
  unfoldable pub handle_events : List EpollEvent → IoManager K → Outcome (IoManager K)
  handle_events [] m = returns m
  handle_events (e ∷ es) m = handle_event e m >>= handle_events es
