-- ===== src/IoManager/Reach.antt =====
-- Any sequence of calls of the manager, and of rounds of idle over events.
use fatdog.Base.{ℕ, ◌^◌, ◌*◌, ◌/◌, ◌<◌, length, ◌≡◌, subst, List, Option, Bool, true}
use fatdog.Base.Signed.{ℤ}
use fatdog.IoManager.Flags.{Event, Events}
use fatdog.IoManager.{
  IoManager, EpollCtl, EpollEvent, returns, Caller, is_set, add_event, del_event, cancel_event,
  handle_events,
}
use fatdog.IoManager.Valid.{IsEpoll, IsValid}
use fatdog.IoManager.Keeps.{
  IsNarrow, Keeps, add_event-Keeps, del_event-Keeps, cancel_event-Keeps, handle_events-Keeps,
}

-- A call that returns, of a thread with a scheduler for addEvent, or the loop of idle over what
-- epoll_wait returned.
pub data Step {K : Type 0} (epoll_ctl : EpollCtl K) : IoManager K → IoManager K → Type 0 where
  adds :
      (m m' : IoManager K) (fd : ℕ) (event : Event) (f : Option ℕ) (caller : Caller) (result : ℤ)
      → fd * 3 / 2 < 2 ^ 31
      → is_set caller.scheduler ≡ true
      → add_event epoll_ctl fd event f caller m ≡ returns (result, m')
      → Step epoll_ctl m m'
  deletes :
      (m m' : IoManager K) (fd : ℕ) (event : Event) (result : Bool)
      → del_event epoll_ctl fd event m ≡ returns (result, m')
      → Step epoll_ctl m m'
  cancels :
      (m m' : IoManager K) (fd : ℕ) (event : Event) (result : Bool)
      → cancel_event epoll_ctl fd event m ≡ returns (result, m')
      → Step epoll_ctl m m'
  handles :
      (m m' : IoManager K) (es : List EpollEvent)
      → handle_events epoll_ctl es m ≡ returns m'
      → Step epoll_ctl m m'

pub data Reach {K : Type 0} (epoll_ctl : EpollCtl K) (s : IoManager K) : IoManager K → Type 0 where
  here : Reach epoll_ctl s s
  next : (m m' : IoManager K) → Reach epoll_ctl s m → Step epoll_ctl m m' → Reach epoll_ctl s m'

module _ {K : Type 0} (epoll_ctl : EpollCtl K) (interest : K → ℕ → Option Events)
    (epoll : IsEpoll epoll_ctl interest) where
  Step-IsNarrow :
      {m m' : IoManager K}
      → Step epoll_ctl m m'
      → IsNarrow epoll_ctl interest epoll m
      → IsNarrow epoll_ctl interest epoll m'
  Step-IsNarrow (adds m m' fd event f caller result int s e) v =
      subst (Keeps (λ (r : ℤ × IoManager K). IsNarrow epoll_ctl interest epoll r.1)) e
        (add_event-Keeps epoll_ctl interest epoll m v.0 v.1 fd int event f caller s)
  Step-IsNarrow (deletes m m' fd event result e) v =
      subst (Keeps (λ (r : Bool × IoManager K). IsNarrow epoll_ctl interest epoll r.1)) e
        (del_event-Keeps epoll_ctl interest epoll m v.0 v.1 fd event)
  Step-IsNarrow (cancels m m' fd event result e) v =
      subst (Keeps (λ (r : Bool × IoManager K). IsNarrow epoll_ctl interest epoll r.1)) e
        (cancel_event-Keeps epoll_ctl interest epoll m v.0 v.1 fd event)
  Step-IsNarrow (handles m m' es e) v =
      subst (Keeps (IsNarrow epoll_ctl interest epoll)) e
        (handle_events-Keeps epoll_ctl interest epoll es m v)

  -- From a valid manager with a table of less than 2^31 contexts, whatever sequence of addEvent
  -- by threads with a scheduler and for descriptors whose 1.5-fold is below 2^31, of delEvent, of
  -- cancelEvent and of the loop of idle over any events is run, each call having returned, and
  -- whichever calls epoll_ctl has accepted, the manager is valid: the pending events are as many
  -- as the contexts wait for, epoll watches just these, each has a scheduler, and the table has
  -- 32 contexts at least. The table has less than 2^31 contexts, too, so that its size is an int.
  pub Reach-IsValid :
      {s m : IoManager K}
      → IsValid interest s
      → length s.contexts < 2 ^ 31
      → Reach epoll_ctl s m
      → IsValid interest m × (length m.contexts < 2 ^ 31)
  Reach-IsValid v narrow here = (v, narrow)
  Reach-IsValid v narrow (next m m' path step) = Step-IsNarrow step (Reach-IsValid v narrow path)
