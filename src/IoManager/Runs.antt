-- ===== src/IoManager/Runs.antt =====
-- The theorems on the I/O manager at concrete inputs, over a kernel that refuses to add what is there
-- and to change what is not.
use fatdog.Base.{
  ◌^◌, ◌-◌, ◌↔◌, ℕ, ◌+◌, ◌<◌, ◌≡◌, refl, sym, ap, ◌∙◌, List, [], ◌∷◌, Option, none, some, Bool,
  true, false, length, ◌==◌, if◌then◌else◌, arith, inl, inr, Bool-cases,
}
use fatdog.Base.Signed.{pos, negsuc, to_signed, size_le, size_le_lem}
use fatdog.Timer.{init, get_next_timer}
use fatdog.Fiber.{new_fiber}
use fatdog.Scheduler.{Scheduler, stopping}
use fatdog.IoManager.Idle.{wait_timeout, wait_timeout_lem, io_stopping, IsIdle, io_stopping-IsIdle}
use fatdog.IoManager.Flags.{read, write, Events, no_events}
use fatdog.IoManager.{
  Op, add, mod_events, del, fiber, FdContext, IoManager, EpollCtl, returns, aborts, Caller, ready,
  empty_context, new_manager, set, context_resize, add_event, del_event, cancel_event, cancel_all,
  handle_event, trigger_event,
}
use fatdog.IoManager.Valid.{
  IsEpoll, effect, IsArmed, IsValid, new_manager-IsValid, replaced-IsValid,
}
use mathlib.Core.Bool.{true≢false, false≢true}
use fatdog.IoManager.Add.{Joined, add_event-Replied}
use fatdog.IoManager.Drop.{Answered, del_event-Answered, cancel_event-Answered}
use fatdog.IoManager.Cancel.{AllAnswered, cancel_all-AllAnswered, cancel_event-add_event}
use fatdog.IoManager.Reach.{adds, cancels, here, next, Reach-IsValid}
use fatdog.IoManager.Ready.{Handled, handle_event-Handled, handle_event-aborts}

abbrev Kernel : Type 0
Kernel = ℕ → Option Events

abbrev is_watched : Option Events → Bool
is_watched none = false
is_watched (some es) = true

abbrev watch : ℕ → Option Events → Kernel → Kernel
watch fd es k x = if x == fd then es else k x

abbrev changed : Op → ℕ → Events → Kernel → Bool → Bool × Kernel
changed add fd es k false = (true, watch fd (effect add es) k)
changed add fd es k true = (false, k)
changed mod_events fd es k true = (true, watch fd (effect mod_events es) k)
changed mod_events fd es k false = (false, k)
changed del fd es k true = (true, watch fd (effect del es) k)
changed del fd es k false = (false, k)

abbrev epoll_ctl : EpollCtl Kernel
epoll_ctl op fd es k = changed op fd es k (is_watched (k fd))

abbrev interest : Kernel → ℕ → Option Events
interest k = k

refused_lem :
    (op : Op) (fd : ℕ) (es : Events) (k : Kernel) (b : Bool)
    → (changed op fd es k b).0 ≡ false
    → (x : ℕ) → (changed op fd es k b).1 x ≡ k x
refused_lem add fd es k true h x = refl
refused_lem add fd es k false h x = absurd (true≢false h)
refused_lem mod_events fd es k true h x = absurd (true≢false h)
refused_lem mod_events fd es k false h x = refl
refused_lem del fd es k true h x = absurd (true≢false h)
refused_lem del fd es k false h x = refl

taken_lem :
    (op : Op) (fd : ℕ) (es : Events) (k : Kernel) (b : Bool)
    → (changed op fd es k b).0 ≡ true
    → (x : ℕ) → (changed op fd es k b).1 x ≡ (if x == fd then effect op es else k x)
taken_lem add fd es k true h x = absurd (false≢true h)
taken_lem add fd es k false h x = refl
taken_lem mod_events fd es k true h x = refl
taken_lem mod_events fd es k false h x = absurd (false≢true h)
taken_lem del fd es k true h x = refl
taken_lem del fd es k false h x = absurd (false≢true h)

epoll_ctl-IsEpoll : IsEpoll epoll_ctl interest
epoll_ctl-IsEpoll = record {
  refused = λ op fd es k. refused_lem op fd es k (is_watched (k fd));
  taken = λ op fd es k. taken_lem op fd es k (is_watched (k fd));
}

abbrev idle_kernel : Kernel
idle_kernel fd = none

-- A manager that nobody uses.
abbrev idle_manager : IoManager Kernel
idle_manager = new_manager idle_kernel

idle_manager-IsValid : IsValid interest idle_manager
idle_manager-IsValid = new_manager-IsValid interest idle_kernel (λ fd. refl)

-- A fiber that waits for descriptor 5 to be read.
abbrev reader : Caller
reader = record { scheduler = some 1; fiber = 9; executing = true }

abbrev waiting : FdContext
waiting = record {
  read = record { scheduler = some 1; fiber = some 9; cb = none };
  write = empty_context;
  fd = 5;
  events = record { read = true; write = false };
}

abbrev busy_manager : IoManager Kernel
busy_manager = record {
  contexts = set (context_resize 32 []) 5 waiting;
  pending = 1;
  scheduled = [];
  kernel = watch 5 (some waiting.events) idle_kernel;
}

waiting-IsArmed : IsArmed waiting
waiting-IsArmed read h = refl
waiting-IsArmed write h = absurd (false≢true h)

busy_manager-IsValid : IsValid interest busy_manager
busy_manager-IsValid =
    replaced-IsValid interest idle_manager idle_manager-IsValid 5 waiting
      (watch 5 (some waiting.events) idle_kernel) 1 [] (omega arith) waiting-IsArmed (λ x. refl)
      refl

-- The manager of the run is what addEvent leaves.
add_event_run : add_event epoll_ctl 5 read none reader idle_manager ≡ returns (pos 0, busy_manager)
unfolding add_event size_le to_signed fatdog.Base.Words.add64
add_event_run = refl

add_event-Replied_example :
    (m' : IoManager Kernel) × (add_event epoll_ctl 5 write none reader busy_manager
      ≡ returns (pos 0, m'))
    × Joined epoll_ctl interest epoll_ctl-IsEpoll 5 write
        (record { scheduler = some 1; fiber = some 9; cb = none })
        busy_manager
        m'
add_event-Replied_example =
    add_event-Replied epoll_ctl interest epoll_ctl-IsEpoll busy_manager busy_manager-IsValid 5
      (omega arith) (size_le_lem 32 5 (omega arith)) write none reader refl refl refl refl

del_event-Answered_example :
    (b : Bool) × (m' : IoManager Kernel) × (del_event epoll_ctl 5 read busy_manager
      ≡ returns (b, m'))
    × (b ≡ true)
    × Answered epoll_ctl interest epoll_ctl-IsEpoll b 5 read [] empty_context busy_manager m'
unfolding size_le to_signed
del_event-Answered_example =
    del_event-Answered epoll_ctl interest epoll_ctl-IsEpoll busy_manager busy_manager-IsValid 5 read

cancel_event-Answered_example :
    (b : Bool) × (m' : IoManager Kernel) × (cancel_event epoll_ctl 5 read busy_manager
      ≡ returns (b, m'))
    × (b ≡ true)
    × Answered epoll_ctl interest epoll_ctl-IsEpoll b 5 read
        ((1, fiber 9) ∷ [])
        (record { scheduler = none; fiber = some 9; cb = none })
        busy_manager
        m'
unfolding size_le to_signed
cancel_event-Answered_example =
    cancel_event-Answered epoll_ctl interest epoll_ctl-IsEpoll busy_manager busy_manager-IsValid 5
      read

cancel_all-AllAnswered_example :
    (b : Bool) × (m' : IoManager Kernel) × (cancel_all epoll_ctl 5 busy_manager ≡ returns (b, m'))
    × (b ≡ true)
    × AllAnswered epoll_ctl interest epoll_ctl-IsEpoll b 5 busy_manager m'
unfolding size_le to_signed
cancel_all-AllAnswered_example =
    cancel_all-AllAnswered epoll_ctl interest epoll_ctl-IsEpoll busy_manager busy_manager-IsValid 5

-- The manager behind cancelEvent.
abbrev cancelled_manager : IoManager Kernel
cancelled_manager = record {
  contexts = set (context_resize 32 []) 5 (record waiting {
    read = record { scheduler = none; fiber = some 9; cb = none };
    events = no_events;
  });
  pending = 0;
  scheduled = (1, fiber 9) ∷ [];
  kernel = watch 5 none busy_manager.kernel;
}

cancel_event_run : cancel_event epoll_ctl 5 read busy_manager ≡ returns (true, cancelled_manager)
unfolding cancel_event size_le to_signed trigger_event fatdog.Base.Words.sub64
cancel_event_run = refl

cancel_event-add_event_example : add_event epoll_ctl 5 read none reader cancelled_manager ≡ aborts
cancel_event-add_event_example =
    cancel_event-add_event epoll_ctl interest epoll_ctl-IsEpoll busy_manager cancelled_manager
      busy_manager-IsValid 5 read cancel_event_run none reader (omega arith) refl refl

handle_event-Handled_example :
    (m' : IoManager Kernel) × (handle_event epoll_ctl (ready 5 true false false) busy_manager
      ≡ returns m')
    × Handled epoll_ctl interest epoll_ctl-IsEpoll busy_manager busy_manager-IsValid 5
        (omega arith)
        true
        false
        false
        m'
handle_event-Handled_example =
    handle_event-Handled epoll_ctl interest epoll_ctl-IsEpoll busy_manager busy_manager-IsValid 5
      (omega arith) true false false refl ((λ h. refl), (λ h. absurd (false≢true h))) refl

-- An error on the descriptor, where a write is not waited for.
handle_event-aborts_example :
    handle_event epoll_ctl (ready 5 false false true) busy_manager ≡ aborts
handle_event-aborts_example =
    handle_event-aborts epoll_ctl interest epoll_ctl-IsEpoll busy_manager busy_manager-IsValid 5
      (omega arith) false false true write refl refl refl refl

wait_timeout_lem_example : wait_timeout (2 ^ 31) ≡ negsuc (2 ^ 31 - 1)
wait_timeout_lem_example = wait_timeout_lem (2 ^ 31) (omega arith)

-- A scheduler that was asked to stop and has nothing to do.
abbrev idle_scheduler : Scheduler ℕ
idle_scheduler = record {
  fibers = [];
  active_count = 0;
  idle_count = 1;
  is_stopping = true;
  tickles = 0;
  heap = λ a. new_fiber a;
  last_id = 0;
  world = 0;
}

io_stopping-IsIdle_example :
    ((io_stopping 100 init busy_manager idle_scheduler).0.0 ≡ true)
    ↔ IsIdle init busy_manager idle_scheduler
io_stopping-IsIdle_example =
    io_stopping-IsIdle interest 100 init busy_manager idle_scheduler busy_manager-IsValid
      (λ a. omega arith)

-- Behind cancelAll the manager still counts the event, and does not stop.
cancel_all_run :
    (m' : IoManager Kernel) × (cancel_all epoll_ctl 5 busy_manager ≡ returns (true, m'))
    × ((io_stopping 100 init m' idle_scheduler).0.0 ≡ false)
unfolding cancel_all size_le to_signed trigger_event io_stopping get_next_timer stopping
cancel_all_run = (_, refl, refl)

-- A fiber starts to wait, and its wait is cancelled.
Reach-IsValid_example :
    IsValid interest cancelled_manager × (length cancelled_manager.contexts < 2 ^ 31)
Reach-IsValid_example =
    Reach-IsValid epoll_ctl interest epoll_ctl-IsEpoll idle_manager-IsValid (omega arith) (
      next busy_manager cancelled_manager
        (next idle_manager busy_manager here (
          adds idle_manager busy_manager 5 read none reader (pos 0) (omega arith) refl
            add_event_run))
        (cancels busy_manager cancelled_manager 5 read true cancel_event_run))
