-- ===== src/IoManager/Add.antt =====
-- addEvent: a fiber or a function comes to wait for an event.
use fatdog.Base.{
  List, ℕ, ◌+◌, ◌*◌, ◌/◌, ◌^◌, ◌<◌, ◌≡◌, refl, sym, ap, ◌∙◌, Option, none, some, Bool, true, false,
  ◌||◌, length, ◌==◌, if◌then◌else◌, arith, inl, inr, le-or-lt, le→leb, lt→not_leb, leb, subst,
  Bool-cases,
}
use fatdog.Base.Signed.{ℤ, pos, negsuc, size_le}
use fatdog.Base.Words.{add64, add64_lem}
use fatdog.IoManager.Flags.{Event, read, write, Events, has, with_event, is_none, size}
use fatdog.IoManager.{
  add, mod_events, FdContext, EventContext, IoManager, EpollCtl, returns, aborts, Caller,
  get_context, set_context, context_resize, reached, set, is_set, is_used, registered, added,
  add_to, add_event,
}
use fatdog.IoManager.Table.{
  context_of, count-le, get_elem?-context_of, context_of-context_resize, length-context_resize,
  context_of-set, length-set,
}
use fatdog.IoManager.Valid.{
  IsEpoll, effect, watched, IsArmed, IsValid, refused-IsValid, resized-IsValid, replaced-IsValid,
}

-- The table stays below 2^31 contexts, if 1.5 times the descriptor does.
pub reached-lt :
    (fd : ℕ) (cs : List FdContext)
    → length cs < 2 ^ 31
    → fd * 3 / 2 < 2 ^ 31
    → length (reached fd cs) < 2 ^ 31
reached-lt fd cs h k = elim (Bool-cases (size_le (length cs) fd)) [
  | inl out ↦ rw out (omega (arith, k, length-context_resize (fd * 3 / 2) cs))
  | inr within ↦ rw within h
]

-- The context with an event added and its EventContext filled.
abbrev pub joined : Event → EventContext → FdContext → FdContext
joined event ctx c = set_context event ctx (record c { events = with_event event c.events })

joined-IsArmed :
    (event : Event) (ctx : EventContext) (c : FdContext)
    → IsArmed c
    → is_set ctx.scheduler ≡ true
    → IsArmed (joined event ctx c)
joined-IsArmed read ctx c armed s read h = s
joined-IsArmed read ctx c armed s write h = armed write h
joined-IsArmed write ctx c armed s read h = armed read h
joined-IsArmed write ctx c armed s write h = s

size-joined :
    (event : Event) (ctx : EventContext) (c : FdContext)
    → has event c.events ≡ false
    → size (joined event ctx c).events ≡ size c.events + 1
size-joined read ctx c h = rw h (omega arith)
size-joined write ctx c h = rw h (omega arith)

effect-add : (b : Bool) (es : Events) → effect (if b then add else mod_events) es ≡ some es
effect-add true es = refl
effect-add false es = refl

watched-joined :
    (event : Event) (ctx : EventContext) (c : FdContext)
    → watched (joined event ctx c) ≡ some (with_event event c.events)
watched-joined read ctx c = refl
watched-joined write ctx c = ground arith

registered-scheduler :
    (f : Option ℕ) (caller : Caller) → (registered f caller).scheduler ≡ caller.scheduler
registered-scheduler none caller = refl
registered-scheduler (some f) caller = refl

module _ {K : Type 0} (epoll_ctl : EpollCtl K) (interest : K → ℕ → Option Events)
    (epoll : IsEpoll epoll_ctl interest) where
  pub record Joined (fd : ℕ) (event : Event) (ctx : EventContext) (m m' : IoManager K)
      : Type 0 where
    pub valid : IsValid interest m'
    pub context : context_of m'.contexts fd ≡ joined event ctx (context_of m.contexts fd)
    pub others : (x : ℕ) → (x == fd) ≡ false → context_of m'.contexts x ≡ context_of m.contexts x
    pub queue : m'.scheduled ≡ m.scheduled
    pub one_more : m'.pending ≡ m.pending + 1
    pub table : length m'.contexts ≡ length (reached fd m.contexts)

  pub record Refused (fd : ℕ) (m m' : IoManager K) : Type 0 where
    pub valid : IsValid interest m'
    pub same_contexts : (x : ℕ) → context_of m'.contexts x ≡ context_of m.contexts x
    pub same_queue : m'.scheduled ≡ m.scheduled
    pub same_pending : m'.pending ≡ m.pending
    pub table : length m'.contexts ≡ length (reached fd m.contexts)

  abbrev pub Replied : Bool → ℕ → Event → EventContext → IoManager K → IoManager K → Type 0
  Replied true fd event ctx m m' = Joined fd event ctx m m'
  Replied false fd event ctx m m' = Refused fd m m'

  abbrev pub reply : Bool → ℤ
  reply true = pos 0
  reply false = negsuc 0

  -- The size of the table compares with the descriptor as an int as it does itself.
  abbrev pub IsTold : IoManager K → ℕ → Type 0
  IsTold m fd = size_le (length m.contexts) fd ≡ leb (length m.contexts) fd

  module _ (m : IoManager K) (v : IsValid interest m) (fd : ℕ) (small : fd < 2 ^ 31)
      (told : IsTold m fd) where
    abbrev grown : IoManager K
    grown = record m { contexts = reached fd m.contexts }

    pub reached_lem :
        IsValid interest grown
        × (fd < length (reached fd m.contexts))
        × ((x : ℕ) → context_of (reached fd m.contexts) x ≡ context_of m.contexts x)
    reached_lem = elim (le-or-lt (length m.contexts) fd) [
      | inl short ↦
          let n = fd * 3 / 2 in
          let e : reached fd m.contexts ≡ context_resize n m.contexts =
            ap (λ b. if b then context_resize n m.contexts else m.contexts)
              (told ∙ le→leb (length m.contexts) fd short) in
          (
            subst (λ cs. IsValid interest (record m { contexts = cs })) (sym e)
                (resized-IsValid interest m v n (omega (arith, short, v.wide))
                  (omega (arith, small))),
            subst (λ cs. fd < length cs) (sym e)
                (omega (arith, length-context_resize n m.contexts, short, v.wide)),
            λ x.
                ap (λ cs. context_of cs x) e
                ∙ context_of-context_resize n m.contexts x (omega (arith, short, v.wide)),
          )
      | inr within ↦
          let e : reached fd m.contexts ≡ m.contexts =
            ap (λ b. if b then context_resize (fd * 3 / 2) m.contexts else m.contexts)
              (told ∙ lt→not_leb (length m.contexts) fd within) in
          (
            subst (λ cs. IsValid interest (record m { contexts = cs })) (sym e) v,
            subst (λ cs. fd < length cs) (sym e) within,
            λ x. ap (λ cs. context_of cs x) e,
          )
    ]

    module _ (event : Event) (f : Option ℕ) (caller : Caller) where
      abbrev c : FdContext
      c = context_of m.contexts fd

      -- Whether epoll_ctl accepts the event beside the others.
      abbrev pub accepted : Bool
      accepted =
          (epoll_ctl (if is_none c.events then add else mod_events) fd (with_event event c.events)
            m.kernel).0

      abbrev kernel' : K
      kernel' =
          (epoll_ctl (if is_none c.events then add else mod_events) fd (with_event event c.events)
            m.kernel).1

      abbrev ctx : EventContext
      ctx = registered f caller

      abbrev joined_to : IoManager K
      joined_to = record {
        contexts = set (reached fd m.contexts) fd (joined event ctx c);
        pending = add64 m.pending 1;
        scheduled = m.scheduled;
        kernel = kernel';
      }

      pending_more : add64 m.pending 1 ≡ m.pending + 1
      pending_more = add64_lem m.pending 1 (omega (arith, v.counted, v.small, count-le m.contexts))

      pub add_event-reached :
          has event c.events ≡ false
          → add_event epoll_ctl fd event f caller m
            ≡ added epoll_ctl fd event f caller grown c (accepted, kernel')
      unfolding add_event
      add_event-reached k =
          let (valid, within, same) = reached_lem in
          ap (add_to epoll_ctl fd event f caller grown)
            (get_elem?-context_of (reached fd m.contexts) fd within ∙ ap some (same fd))
          ∙ ap
              (λ b.
                if b then aborts else added epoll_ctl fd event f caller grown c (accepted, kernel'))
              k

      joined_to-Joined :
          has event c.events ≡ false
          → is_set caller.scheduler ≡ true
          → accepted ≡ true
          → Joined fd event ctx m joined_to
      joined_to-Joined k s ok =
          let (valid, within, same) = reached_lem in
          record {
            valid =
                replaced-IsValid interest grown valid fd (joined event ctx c) kernel'
                  (add64 m.pending 1) m.scheduled within
                  (joined-IsArmed event ctx c (v.armed fd)
                    (ap is_set (registered-scheduler f caller) ∙ s))
                  (λ x.
                    epoll.taken (if is_none c.events then add else mod_events) fd
                      (with_event event c.events) m.kernel ok x
                    ∙ ap (λ w. if x == fd then w else interest m.kernel x)
                        (effect-add (is_none c.events) (with_event event c.events)
                          ∙ sym (watched-joined event ctx c)))
                  (omega (
                    arith,
                    pending_more,
                    size-joined event ctx c k,
                    ap (λ (d : FdContext). size d.events) (same fd),
                  ));
            context =
                context_of-set (reached fd m.contexts) fd (joined event ctx c) fd within
                ∙ ground arith;
            others = λ x o.
                context_of-set (reached fd m.contexts) fd (joined event ctx c) x within
                ∙ rw o (same x);
            queue = refl;
            one_more = pending_more;
            table = length-set (reached fd m.contexts) fd (joined event ctx c);
          }

      -- addEvent of an event that is not waited for and whose context is empty, by a caller
      -- with a scheduler that gives a function or is a running fiber, returns 0 where
      -- epoll_ctl accepts the event and -1 where it does not, on a valid manager and for a
      -- descriptor below 2^31 wherever the table ends, if the size of the table, cast to an
      -- int, compares with the descriptor as the size itself does. With 0 the event waits
      -- with that function or fiber, one more event is pending, and every other descriptor is
      -- as it was; with -1 every context is as it was. No task is scheduled, and the manager
      -- is valid: the pending events are counted, and epoll watches just what the contexts
      -- wait for.
      pub add_event-Replied :
          has event c.events ≡ false
          → is_used (get_context event c) ≡ false
          → (is_set f || caller.executing) ≡ true
          → is_set caller.scheduler ≡ true
          → (m' : IoManager K) × (add_event epoll_ctl fd event f caller m
              ≡ returns (reply accepted, m'))
            × Replied accepted fd event ctx m m'
      add_event-Replied k unused may s = elim (Bool-cases accepted) [
        | inl ok ↦
            subst
              (λ b.
                (m' : IoManager K) × (add_event epoll_ctl fd event f caller m
                  ≡ returns (reply b, m'))
                × Replied b fd event ctx m m')
              (sym ok)
              (
                joined_to,
                add_event-reached k
                    ∙ ap (λ b. added epoll_ctl fd event f caller grown c (b, kernel')) ok
                    ∙ ap
                        (λ b.
                          if b
                          then aborts
                          else if is_set f || caller.executing
                          then returns (pos 0, joined_to)
                          else aborts)
                        unused
                    ∙ ap (λ b. if b then returns (pos 0, joined_to) else aborts) may,
                joined_to-Joined k s ok,
              )
        | inr no_ok ↦
            let (valid, within, same) = reached_lem in
            subst
              (λ b.
                (m' : IoManager K) × (add_event epoll_ctl fd event f caller m
                  ≡ returns (reply b, m'))
                × Replied b fd event ctx m m')
              (sym no_ok)
              (
                record grown { kernel = kernel' },
                add_event-reached k
                    ∙ ap (λ b. added epoll_ctl fd event f caller grown c (b, kernel')) no_ok,
                record {
                  valid = refused-IsValid interest grown valid kernel' (
                      epoll.refused (if is_none c.events then add else mod_events) fd
                        (with_event event c.events) m.kernel no_ok);
                  same_contexts = same;
                  same_queue = refl;
                  same_pending = refl;
                  table = refl;
                },
              )
      ]

      -- addEvent of an event that is waited for already fails an assertion, on a valid
      -- manager and for a descriptor below 2^31, with the size of the table as above.
      pub add_event-aborts :
          (has event c.events ≡ true) → add_event epoll_ctl fd event f caller m ≡ aborts
      unfolding add_event
      add_event-aborts k =
          let (valid, within, same) = reached_lem in
          ap (add_to epoll_ctl fd event f caller grown)
            (get_elem?-context_of (reached fd m.contexts) fd within ∙ ap some (same fd))
          ∙ ap
              (λ b.
                if b then aborts else added epoll_ctl fd event f caller grown c (accepted, kernel'))
              k

      -- A context that has been used and not been reset
      pub add_event-used :
          has event c.events ≡ false
          → is_used (get_context event c) ≡ true
          → accepted ≡ true
          → add_event epoll_ctl fd event f caller m ≡ aborts
      add_event-used k used ok =
          add_event-reached k
          ∙ ap (λ b. added epoll_ctl fd event f caller grown c (b, kernel')) ok
          ∙ ap
              (λ b.
                if b
                then aborts
                else if is_set f || caller.executing
                then returns (pos 0, joined_to)
                else aborts)
              used
