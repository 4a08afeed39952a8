-- ===== src/IoManager/Ready.antt =====
-- The loop of idle over what epoll_wait returns: the events of one descriptor.
use fatdog.Base.{
  ℕ, ◌+◌, ◌-◌, ◌^◌, ◌≤◌, ◌<◌, ◌≡◌, refl, sym, ap, ◌∙◌, List, [], ◌++◌, Option, none, some, Bool,
  true, false, ◌||◌, length, ◌==◌, if◌then◌else◌, arith, inl, inr, Bool-cases,
}
use fatdog.Base.Words.{sub64_lem}
use fatdog.IoManager.Flags.{Event, read, write, Events, has, is_none, size, common, left}
use fatdog.IoManager.{
  Op, mod_events, del, Task, FdContext, IoManager, EpollCtl, Outcome, returns, aborts, ◌>>=◌, ready,
  ready_event, readied, ready_on, handle_event, triggered, set,
}
use fatdog.IoManager.Trigger.{tasks_of, effect-op}
use fatdog.IoManager.Table.{
  context_of, count-le, count-set, new_context, get_elem?-context_of, context_of-set,
  context_of-set_same, length-set,
}
use fatdog.IoManager.Valid.{IsEpoll, IsValid, replaced-IsValid}
use fatdog.IoManager.Fire.{
  step, step_tasks, step-IsArmed, ready_event_lem, ready_event-aborts, one_less_if, both,
  both_tasks, write-step, events-both, both-IsArmed,
}

-- The events that idle takes an epoll_event for.
abbrev pub real_events : Bool → Bool → Bool → Events
real_events epollin epollout err_or_hup = record {
  read = epollin || err_or_hup;
  write = epollout || err_or_hup;
}

-- Every event of the first set is one of the second.
abbrev pub IsSubset : Events → Events → Type 0
IsSubset es other = (es.read ≡ true → other.read ≡ true) × (es.write ≡ true → other.write ≡ true)

size-left : (es real : Events) → IsSubset real es → size (left es real) + size real ≡ size es
size-left es real h = elim (Bool-cases real.read) [
  | inl r ↦ elim (Bool-cases real.write) [
    | inl w ↦ rw (r, w, h.0 r, h.1 w) refl
    | inr w ↦ rw (r, w, h.0 r) (omega arith)
  ]
  | inr r ↦ elim (Bool-cases real.write) [
    | inl w ↦ rw (r, w, h.1 w) (omega arith)
    | inr w ↦ rw (r, w) (omega arith)
  ]
]

one_less_if_both :
    (real : Events) (p : ℕ)
    → size real ≤ p
    → p < 2 ^ 64
    → one_less_if real.write (one_less_if real.read p) + size real ≡ p
one_less_if_both real p h small = elim (Bool-cases real.read) [
  | inl r ↦ elim (Bool-cases real.write) [
    | inl w ↦
        let two : 2 ≤ p = rw (r, w) at h in
        rw (r, w)
          (rw (sub64_lem p 1 (omega (arith, two)) small)
            (omega (arith, two, sub64_lem (p - 1) 1 (omega (arith, two)) (omega (arith, small)))))
    | inr w ↦
        let one : 1 ≤ p = rw (r, w) at h in
        rw (r, w) (omega (arith, one, sub64_lem p 1 (omega (arith, one)) small))
  ]
  | inr r ↦ elim (Bool-cases real.write) [
    | inl w ↦
        let one : 1 ≤ p = rw (r, w) at h in
        rw (r, w) (omega (arith, one, sub64_lem p 1 (omega (arith, one)) small))
    | inr w ↦ rw (r, w) (omega arith)
  ]
]

common_read :
    (es real : Events)
    → has write es ≡ false
    → is_none (common es real) ≡ false
    → (es.read ≡ true) × (real.read ≡ true)
common_read es real o due = (ground arith, ground arith)

module _ {K : Type 0} (epoll_ctl : EpollCtl K) (interest : K → ℕ → Option Events)
    (epoll : IsEpoll epoll_ctl interest) (m : IoManager K) (v : IsValid interest m) (fd : ℕ)
    (within : fd < length m.contexts) (epollin epollout err_or_hup : Bool) where
  abbrev c : FdContext
  c = context_of m.contexts fd

  abbrev pub real : Events
  real = real_events epollin epollout err_or_hup

  abbrev op : Op
  op = if is_none (left c.events real) then del else mod_events

  -- Whether epoll_ctl accepts the events that are left.
  abbrev pub accepted : Bool
  accepted = (epoll_ctl op fd (left c.events real) m.kernel).0

  abbrev kernel' : K
  kernel' = (epoll_ctl op fd (left c.events real) m.kernel).1

  -- The tasks of the real events are scheduled, and the events dropped.
  pub record Handled (m' : IoManager K) : Type 0 where
    pub valid : IsValid interest m'
    pub events : (context_of m'.contexts fd).events ≡ left c.events real
    pub others : (x : ℕ) → (x == fd) ≡ false → context_of m'.contexts x ≡ context_of m.contexts x
    pub queue : m'.scheduled ≡ m.scheduled ++ both_tasks real c
    pub fewer : m'.pending + size real ≡ m.pending
    pub table : length m'.contexts ≡ length m.contexts

  handle_event-readied :
      is_none (common c.events real) ≡ false
      → accepted ≡ true
      → handle_event epoll_ctl (ready fd epollin epollout err_or_hup) m
        ≡ readied epoll_ctl fd real m c (true, kernel')
  unfolding handle_event
  handle_event-readied due ok =
      ap (ready_on epoll_ctl fd real m) (get_elem?-context_of m.contexts fd within)
      ∙ ap (λ b. if b then returns m else readied epoll_ctl fd real m c (accepted, kernel')) due
      ∙ ap (λ b. readied epoll_ctl fd real m c (b, kernel')) ok

  abbrev handled : IoManager K
  handled = record {
    contexts = set m.contexts fd (both real c);
    pending = one_less_if real.write (one_less_if real.read m.pending);
    scheduled =
        m.scheduled
        ++ (step_tasks real.read read c ++ step_tasks real.write write (step real.read read c));
    kernel = kernel';
  }

  at_self : context_of handled.contexts fd ≡ both real c
  at_self = context_of-set_same m.contexts fd (both real c) within

  low : size c.events ≤ m.pending
  low = omega (arith, v.counted, count-set m.contexts fd (new_context 0) within)

  fewer_lem : IsSubset real c.events → handled.pending + size real ≡ m.pending
  fewer_lem sub =
      one_less_if_both real m.pending (omega (arith, low, size-left c.events real sub))
        (omega (arith, v.counted, v.small, count-le m.contexts))

  handled-IsValid : IsSubset real c.events → accepted ≡ true → IsValid interest handled
  handled-IsValid sub ok =
      replaced-IsValid interest m v fd (both real c) kernel' handled.pending handled.scheduled
        within (both-IsArmed real c (v.armed fd))
        (λ x.
          epoll.taken op fd (left c.events real) m.kernel ok x
          ∙ ap (λ w. if x == fd then w else interest m.kernel x)
              (effect-op (is_none (left c.events real)) (left c.events real)
                ∙ ap (λ (es : Events). if is_none es then none else some es)
                    (sym (events-both real c))))
        (omega (arith, fewer_lem sub, size-left c.events real sub, ap size (events-both real c)))

  -- In the loop of idle over the events of epoll_wait, on a valid manager and a descriptor in the
  -- table: where some of the real events are waited for, all of them are, and epoll_ctl accepts
  -- what is left, the loop's body returns a valid manager in which these events are gone, what
  -- waited to read and then what waited to write is scheduled, so many events less are pending,
  -- and every other descriptor is as it was.
  pub handle_event-Handled :
      is_none (common c.events real) ≡ false
      → IsSubset real c.events
      → accepted ≡ true
      → (m' : IoManager K) × (handle_event epoll_ctl (ready fd epollin epollout err_or_hup) m
          ≡ returns m')
        × Handled m'
  handle_event-Handled due sub ok = (
    handled,
    handle_event-readied due ok
        ∙ ap
            (λ o. o >>= λ r.
              ready_event real.write write r >>= λ (s : FdContext × List (ℕ × Task) × ℕ).
              returns (record (triggered fd (record m { kernel = kernel' }) (s.0, s.1)) {
                pending = s.2;
              }))
            (ready_event_lem real.read read c [] m.pending sub.0 (v.armed fd))
        ∙ ap
            (λ o. o >>= λ (s : FdContext × List (ℕ × Task) × ℕ).
              returns (record (triggered fd (record m { kernel = kernel' }) (s.0, s.1)) {
                pending = s.2;
              }))
            (ready_event_lem real.write write (step real.read read c) (step_tasks real.read read c)
              (one_less_if real.read m.pending) (λ h. (write-step real.read c).0 ∙ sub.1 h)
              (step-IsArmed real.read read c (v.armed fd)))
        ∙ refl,
    record {
      valid = handled-IsValid sub ok;
      events = ap (λ (d : FdContext). d.events) at_self ∙ events-both real c;
      others = λ x o. context_of-set m.contexts fd (both real c) x within ∙ rw o refl;
      queue =
          ap
            (λ ctx.
              m.scheduled
              ++ (step_tasks real.read read c ++ (if real.write then tasks_of ctx else [])))
            (write-step real.read c).1;
      fewer = fewer_lem sub;
      table = length-set m.contexts fd (both real c);
    },
  )

  -- What follows the `if` of READ.
  abbrev behind_read : FdContext × List (ℕ × Task) × ℕ → Outcome (IoManager K)
  behind_read r = ready_event real.write write r >>= λ (s : FdContext × List (ℕ × Task) × ℕ).
      returns (record (triggered fd (record m { kernel = kernel' }) (s.0, s.1)) { pending = s.2 })

  -- In the loop of idle, on a valid manager and a descriptor in the table: where some of the real
  -- events are waited for and another is not, and epoll_ctl accepts what is left, the loop's body
  -- fails an assertion.
  pub handle_event-aborts :
      (event : Event)
      → has event real ≡ true
      → has event c.events ≡ false
      → is_none (common c.events real) ≡ false
      → accepted ≡ true
      → handle_event epoll_ctl (ready fd epollin epollout err_or_hup) m ≡ aborts
  handle_event-aborts read r o due ok =
      handle_event-readied due ok
      ∙ ap (λ b. ready_event b read (c, [], m.pending) >>= behind_read) r
      ∙ ap (λ r. r >>= behind_read) (ready_event-aborts read c [] m.pending o)
  handle_event-aborts write r o due ok =
      handle_event-readied due ok
      ∙ ap (λ r. r >>= behind_read)
          (ready_event_lem real.read read c [] m.pending (λ h. (common_read c.events real o due).0)
            (v.armed fd))
      ∙ ap
          (λ b.
            ready_event b write
              (step real.read read c, step_tasks real.read read c, one_less_if real.read m.pending)
            >>= λ (s : FdContext × List (ℕ × Task) × ℕ).
                returns (record (triggered fd (record m { kernel = kernel' }) (s.0, s.1)) {
                  pending = s.2;
                }))
          r
      ∙ ap
          (λ o. o >>= λ (s : FdContext × List (ℕ × Task) × ℕ).
            returns
              (record (triggered fd (record m { kernel = kernel' }) (s.0, s.1)) { pending = s.2 }))
          (ready_event-aborts write (step real.read read c) (step_tasks real.read read c)
            (one_less_if real.read m.pending) ((write-step real.read c).0 ∙ o))
