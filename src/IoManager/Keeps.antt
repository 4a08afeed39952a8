-- ===== src/IoManager/Keeps.antt =====
-- The calls of the manager keep its invariant, whatever epoll_ctl accepts, where they return.
use fatdog.Base.{
  ℕ, ◌^◌, ◌*◌, ◌/◌, arith, ◌<◌, ◌≡◌, refl, sym, ap, ◌∙◌, subst, List, [], ◌∷◌, Option, some, Bool,
  true, false, ◌||◌, length, if◌then◌else◌, inl, inr, ◌⊎◌, Bool-cases, le-or-lt,
}
use fatdog.Base.Signed.{ℤ, size_le_lem}
use fatdog.IoManager.Flags.{Event, read, write, Events, has, with_event, is_none, common, left}
use fatdog.IoManager.{
  Task, EventContext, add, mod_events, del, FdContext, IoManager, EpollCtl, EpollEvent, tickled,
  ready, Outcome, returns, aborts, crash, ◌>>=◌, Caller, get_context, is_used, is_set, added,
  add_event, del_event, cancel_event, readied, ready_on, handle_event, handle_events, reached,
}
use fatdog.IoManager.Table.{context_of, get_elem?-context_of, get_elem?-short}
use fatdog.IoManager.Valid.{IsEpoll, IsValid, refused-IsValid}
use fatdog.IoManager.Drop.{Answered, del_event-Answered, cancel_event-Answered}
use fatdog.IoManager.Add.{
  IsTold, reached-lt, Replied, reached_lem, add_event-reached, add_event-Replied, add_event-aborts,
  add_event-used,
}
use fatdog.IoManager.Ready.{real_events, IsSubset, handle_event-Handled, handle_event-aborts}
use mathlib.Core.Bool.{false≢true}

-- Where a call returns, something holds.
abbrev pub Keeps {ℓ κ} : {A : Type ℓ} → (A → Type κ) → Outcome A → Type κ
Keeps P (returns a) = P a
Keeps P aborts = Unit
Keeps P crash = Unit

Keeps-bind {ℓ} :
    {A : Type ℓ} (P : A → Type 0) (o : Outcome A) (f : A → Outcome A)
    → Keeps P o
    → ((a : A) → P a → Keeps P (f a))
    → Keeps P (o >>= f)
Keeps-bind P (returns a) f h k = k a h
Keeps-bind P aborts f h k = tt
Keeps-bind P crash f h k = tt

module _ {K : Type 0} (epoll_ctl : EpollCtl K) (interest : K → ℕ → Option Events)
    (epoll : IsEpoll epoll_ctl interest) where
  -- The invariant, of a manager whose table has less than 2^31 contexts.
  abbrev pub IsNarrow : IoManager K → Type 0
  IsNarrow m = IsValid interest m × (length m.contexts < 2 ^ 31)

  Answered-IsNarrow :
      (b : Bool) (fd : ℕ) (event : Event) (tasks : List (ℕ × Task)) (ctx : EventContext)
      (m m' : IoManager K)
      → length m.contexts < 2 ^ 31
      → Answered epoll_ctl interest epoll b fd event tasks ctx m m'
      → IsNarrow m'
  Answered-IsNarrow true fd event tasks ctx m m' narrow a =
      (a.valid, omega (arith, narrow, a.table))
  Answered-IsNarrow false fd event tasks ctx m m' narrow a =
      (a.valid, omega (arith, narrow, ap length a.same_contexts))

  Replied-IsNarrow :
      (b : Bool) (fd : ℕ) (event : Event) (ctx : EventContext) (m m' : IoManager K)
      → length (reached fd m.contexts) < 2 ^ 31
      → Replied epoll_ctl interest epoll b fd event ctx m m'
      → IsNarrow m'
  Replied-IsNarrow true fd event ctx m m' low a = (a.valid, omega (arith, low, a.table))
  Replied-IsNarrow false fd event ctx m m' low a = (a.valid, omega (arith, low, a.table))

  module _ (m : IoManager K) (v : IsValid interest m) (narrow : length m.contexts < 2 ^ 31) where
    abbrev IsNarrowBehind : Bool × IoManager K → Type 0
    IsNarrowBehind r = IsNarrow r.1

    pub del_event-Keeps :
        (fd : ℕ) (event : Event) → Keeps IsNarrowBehind (del_event epoll_ctl fd event m)
    del_event-Keeps fd event =
        let (b, m', e, _, a) = del_event-Answered epoll_ctl interest epoll m v fd event in
        subst (Keeps IsNarrowBehind) (sym e) (Answered-IsNarrow b fd event _ _ m m' narrow a)

    pub cancel_event-Keeps :
        (fd : ℕ) (event : Event) → Keeps IsNarrowBehind (cancel_event epoll_ctl fd event m)
    cancel_event-Keeps fd event =
        let (b, m', e, _, a) = cancel_event-Answered epoll_ctl interest epoll m v fd event in
        subst (Keeps IsNarrowBehind) (sym e) (Answered-IsNarrow b fd event _ _ m m' narrow a)

    module _ (fd : ℕ) (within : fd < length m.contexts) (epollin epollout err_or_hup : Bool) where
      abbrev at_fd : FdContext
      at_fd = context_of m.contexts fd

      abbrev real : Events
      real = real_events epollin epollout err_or_hup

      abbrev changed : Bool × K
      changed =
          epoll_ctl (if is_none (left at_fd.events real) then del else mod_events) fd
            (left at_fd.events real) m.kernel

      abbrev EventKeeps : Type 0
      EventKeeps = Keeps IsNarrow (handle_event epoll_ctl (ready fd epollin epollout err_or_hup) m)

      at_context :
          handle_event epoll_ctl (ready fd epollin epollout err_or_hup) m
          ≡ ready_on epoll_ctl fd real m (some at_fd)
      unfolding handle_event
      at_context = ap (ready_on epoll_ctl fd real m) (get_elem?-context_of m.contexts fd within)

      -- Where every real event is waited for, or one is not.
      subset_or :
          IsSubset real at_fd.events
          ⊎ ((event : Event) × (has event real ≡ true) × (has event at_fd.events ≡ false))
      subset_or = elim (Bool-cases at_fd.events.read) [
        | inl r ↦ elim (Bool-cases at_fd.events.write) [
          | inl w ↦ inl (λ h. r, λ h. w)
          | inr w ↦ elim (Bool-cases real.write) [
            | inl x ↦ inr (write, x, w)
            | inr x ↦ inl (λ h. r, λ h. absurd (false≢true (sym x ∙ h)))
          ]
        ]
        | inr r ↦ elim (Bool-cases real.read) [
          | inl x ↦ inr (read, x, r)
          | inr x ↦ elim (Bool-cases at_fd.events.write) [
            | inl w ↦ inl (λ h. absurd (false≢true (sym x ∙ h)), λ h. w)
            | inr w ↦ elim (Bool-cases real.write) [
              | inl y ↦ inr (write, y, w)
              | inr y ↦
                  inl (λ h. absurd (false≢true (sym x ∙ h)), λ h. absurd (false≢true (sym y ∙ h)))
            ]
          ]
        ]
      ]

      event-Keeps : EventKeeps
      event-Keeps = elim (Bool-cases (is_none (common at_fd.events real))) [
        | inl nothing ↦
            subst (Keeps IsNarrow)
              (sym (
                at_context
                ∙ ap (λ b. if b then returns m else readied epoll_ctl fd real m at_fd changed)
                    nothing))
              (v, narrow)
        | inr due ↦ elim (Bool-cases changed.0) [
          | inl ok ↦ elim subset_or [
            | inl sub ↦
                let (m', e, handled) =
                  handle_event-Handled epoll_ctl interest epoll m v fd within epollin epollout
                    err_or_hup due sub ok in
                subst (Keeps IsNarrow) (sym e) (handled.valid, omega (arith, narrow, handled.table))
            | inr (event, x, o) ↦
                subst (Keeps IsNarrow)
                  (sym (
                    handle_event-aborts epoll_ctl interest epoll m v fd within epollin epollout
                      err_or_hup event x o due ok))
                  tt
          ]
          | inr no_ok ↦
              subst (Keeps IsNarrow)
                (sym (
                  at_context
                  ∙ ap (λ b. if b then returns m else readied epoll_ctl fd real m at_fd changed) due
                  ∙ ap (λ b. readied epoll_ctl fd real m at_fd (b, changed.1)) no_ok))
                (
                  refused-IsValid interest m v changed.1 (
                      epoll.refused (if is_none (left at_fd.events real) then del else mod_events)
                        fd (left at_fd.events real) m.kernel no_ok),
                  narrow,
                )
        ]
      ]

    module _ (fd : ℕ) (int : fd * 3 / 2 < 2 ^ 31) (event : Event) (f : Option ℕ) (caller : Caller)
        (s : is_set caller.scheduler ≡ true) where
      abbrev AddKeeps : Outcome (ℤ × IoManager K) → Type 0
      AddKeeps o = Keeps (λ (r : ℤ × IoManager K). IsNarrow r.1) o

      small : fd < 2 ^ 31
      small = omega (arith, int)

      told : IsTold epoll_ctl interest epoll m fd
      told = size_le_lem (length m.contexts) fd narrow

      low : length (reached fd m.contexts) < 2 ^ 31
      low = reached-lt fd m.contexts narrow int

      abbrev c : FdContext
      c = context_of m.contexts fd

      abbrev answer : Bool × K
      answer =
          epoll_ctl (if is_none c.events then add else mod_events) fd (with_event event c.events)
            m.kernel

      abbrev grown : IoManager K
      grown = record m { contexts = reached fd m.contexts }

      add_event-refused :
          has event c.events ≡ false
          → answer.0 ≡ false
          → AddKeeps (add_event epoll_ctl fd event f caller m)
      add_event-refused k no_ok =
          subst AddKeeps
            (sym (
              add_event-reached epoll_ctl interest epoll m v fd small told event f caller k
              ∙ ap (λ b. added epoll_ctl fd event f caller grown c (b, answer.1)) no_ok))
            (
              refused-IsValid interest grown
                  (reached_lem epoll_ctl interest epoll m v fd small told).0 answer.1
                  (epoll.refused (if is_none c.events then add else mod_events) fd
                    (with_event event c.events) m.kernel no_ok),
              low,
            )

      add_event-accepted :
          has event c.events ≡ false
          → answer.0 ≡ true
          → AddKeeps (add_event epoll_ctl fd event f caller m)
      add_event-accepted k ok = elim (Bool-cases (is_used (get_context event c))) [
        | inl used ↦
            subst AddKeeps
              (sym (
                add_event-used epoll_ctl interest epoll m v fd small told event f caller k used ok))
              tt
        | inr unused ↦ elim (Bool-cases (is_set f || caller.executing)) [
          | inl may ↦
              let (m', e, a) =
                add_event-Replied epoll_ctl interest epoll m v fd small told event f caller k unused
                  may s in
              subst AddKeeps (sym e) (Replied-IsNarrow answer.0 fd event _ m m' low a)
          | inr not_so ↦
              let e : added epoll_ctl fd event f caller grown c (true, answer.1) ≡ aborts =
                rw (unused, not_so) refl in
              subst AddKeeps
                (sym (
                  add_event-reached epoll_ctl interest epoll m v fd small told event f caller k
                  ∙ ap (λ b. added epoll_ctl fd event f caller grown c (b, answer.1)) ok
                  ∙ e))
                tt
        ]
      ]

      pub add_event-Keeps : AddKeeps (add_event epoll_ctl fd event f caller m)
      add_event-Keeps = elim (Bool-cases (has event c.events)) [
        | inl k ↦
            subst AddKeeps
              (sym (add_event-aborts epoll_ctl interest epoll m v fd small told event f caller k))
              tt
        | inr k ↦ elim (Bool-cases answer.0) [
          | inl ok ↦ add_event-accepted k ok
          | inr no_ok ↦ add_event-refused k no_ok
        ]
      ]

  handle_event-Keeps :
      (e : EpollEvent) (m : IoManager K) → IsNarrow m → Keeps IsNarrow (handle_event epoll_ctl e m)
  unfolding handle_event
  handle_event-Keeps tickled m v = v
  handle_event-Keeps (ready fd i o x) m v = elim (le-or-lt (length m.contexts) fd) [
    | inl short ↦
        subst (Keeps IsNarrow)
          (sym (
            ap (ready_on epoll_ctl fd (real_events i o x) m) (get_elem?-short m.contexts fd short)))
          tt
    | inr within ↦ event-Keeps m v.0 v.1 fd within i o x
  ]

  pub handle_events-Keeps :
      (es : List EpollEvent) (m : IoManager K)
      → IsNarrow m
      → Keeps IsNarrow (handle_events epoll_ctl es m)
  unfolding handle_events
  handle_events-Keeps [] m v = v
  handle_events-Keeps (e ∷ es) m v =
      Keeps-bind IsNarrow (handle_event epoll_ctl e m) (handle_events epoll_ctl es)
        (handle_event-Keeps e m v) (handle_events-Keeps es)
