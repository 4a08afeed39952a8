-- ===== src/IoManager/Valid.antt =====
-- What epoll_ctl is relied on for, the invariant of the manager, and what keeps it.
use fatdog.Base.{
  ℕ, ◌+◌, ◌*◌, ◌^◌, ◌≤◌, ◌<◌, ◌≡◌, refl, sym, ap, ◌∙◌, List, [], Option, none, some, true, false,
  length, ◌==◌, if◌then◌else◌, arith, inl, inr, subst, Bool-cases,
}
use fatdog.IoManager.Flags.{Event, read, write, Events, has, is_none, size}
use fatdog.IoManager.{
  Op, add, mod_events, del, Task, FdContext, IoManager, EpollCtl, get_context, context_resize, set,
  new_manager, is_set,
}
use mathlib.Core.Bool.{false≢true}
use fatdog.IoManager.Table.{
  new_context, context_of, count, context_of-context_resize, length-context_resize,
  count-context_resize, context_of-set, length-set, count-set,
}

-- The events that epoll watches a descriptor for behind a call that succeeded.
abbrev pub effect : Op → Events → Option Events
effect add es = some es
effect mod_events es = some es
effect del es = none

-- The documented behaviour of epoll_ctl: where it fails, nothing is changed, and where it succeeds,
-- it changes what is watched of one descriptor. `interest` is the interest list, without the pipe of
-- the manager, which the constructor adds.
pub record IsEpoll {K : Type 0} (epoll_ctl : EpollCtl K) (interest : K → ℕ → Option Events)
    : Type 0 where
  pub refused :
      (op : Op) (fd : ℕ) (es : Events) (k : K)
      → (epoll_ctl op fd es k).0 ≡ false
      → (x : ℕ) → interest (epoll_ctl op fd es k).1 x ≡ interest k x
  pub taken :
      (op : Op) (fd : ℕ) (es : Events) (k : K)
      → (epoll_ctl op fd es k).0 ≡ true
      → (x : ℕ)
      → interest (epoll_ctl op fd es k).1 x ≡ (if x == fd then effect op es else interest k x)

-- What epoll is to watch for a context.
abbrev pub watched : FdContext → Option Events
watched c = if is_none c.events then none else some c.events

-- Whoever waits has a scheduler.
abbrev pub IsArmed : FdContext → Type 0
IsArmed c =
    (event : Event) → has event c.events ≡ true → is_set (get_context event c).scheduler ≡ true

-- m_pendingEventCount is the number of events, and epoll watches just these.
pub record IsValid {K : Type 0} (interest : K → ℕ → Option Events) (m : IoManager K) : Type 0 where
  pub counted : m.pending ≡ count m.contexts
  pub wide : 32 ≤ length m.contexts
  pub small : 2 * length m.contexts < 2 ^ 64
  pub listed : (fd : ℕ) → interest m.kernel fd ≡ watched (context_of m.contexts fd)
  pub armed : (fd : ℕ) → IsArmed (context_of m.contexts fd)

new_context-IsArmed : (i : ℕ) → IsArmed (new_context i)
new_context-IsArmed i read h = absurd (false≢true h)
new_context-IsArmed i write h = absurd (false≢true h)

if-split {ℓ κ} :
    {A : Type ℓ} (P : A → Type κ) (x i : ℕ) (a b : A) → P a → P b → P (if x == i then a else b)
if-split P x i a b h k = elim (Bool-cases (x == i)) [ inl e ↦ rw e h | inr o ↦ rw o k ]

module _ {K : Type 0} (interest : K → ℕ → Option Events) (m : IoManager K)
    (v : IsValid interest m) where
  -- Another state of the kernel with the same interest list.
  pub refused-IsValid :
      (k : K)
      → ((x : ℕ) → interest k x ≡ interest m.kernel x)
      → IsValid interest (record m { kernel = k })
  refused-IsValid k same = record {
    counted = v.counted;
    wide = v.wide;
    small = v.small;
    listed = λ fd. same fd ∙ v.listed fd;
    armed = v.armed;
  }

  -- A larger table.
  pub resized-IsValid :
      (n : ℕ)
      → length m.contexts ≤ n
      → 2 * n < 2 ^ 64
      → IsValid interest (record m { contexts = context_resize n m.contexts })
  resized-IsValid n h small = record {
    counted = v.counted ∙ sym (count-context_resize n m.contexts h);
    wide = omega (arith, length-context_resize n m.contexts, v.wide);
    small = omega (arith, length-context_resize n m.contexts);
    listed = λ fd. v.listed fd ∙ ap watched (sym (context_of-context_resize n m.contexts fd h));
    armed = λ fd. subst IsArmed (sym (context_of-context_resize n m.contexts fd h)) (v.armed fd);
  }

  -- Another context of one descriptor.
  pub replaced-IsValid :
      (i : ℕ) (c : FdContext) (k : K) (pending : ℕ) (scheduled : List (ℕ × Task))
      → i < length m.contexts
      → IsArmed c
      → ((x : ℕ) → interest k x ≡ (if x == i then watched c else interest m.kernel x))
      → pending + size (context_of m.contexts i).events ≡ m.pending + size c.events
      → IsValid interest (record {
        contexts = set m.contexts i c;
        pending = pending;
        scheduled = scheduled;
        kernel = k;
      })
  replaced-IsValid i c k pending scheduled h armed kernel counted = record {
    counted = omega (arith, v.counted, count-set m.contexts i c h);
    wide = omega (arith, v.wide, length-set m.contexts i c);
    small = omega (arith, v.small, length-set m.contexts i c);
    listed =
        λ fd. kernel fd ∙ watched-set fd ∙ ap watched (sym (context_of-set m.contexts i c fd h));
    armed = λ fd.
        subst IsArmed (sym (context_of-set m.contexts i c fd h))
          (if-split IsArmed fd i c (context_of m.contexts fd) armed (v.armed fd));
  }
    where
      watched-set :
          (fd : ℕ)
          → (if fd == i then watched c else interest m.kernel fd)
            ≡ watched (if fd == i then c else context_of m.contexts fd)
      watched-set fd = elim (Bool-cases (fd == i)) [
        | inl e ↦ rw e refl
        | inr o ↦ rw o (v.listed fd)
      ]

pub new_manager-IsValid :
    {K : Type 0} (interest : K → ℕ → Option Events) (k : K)
    → ((fd : ℕ) → interest k fd ≡ none)
    → IsValid interest (new_manager k)
new_manager-IsValid interest k none_watched = record {
  counted = refl;
  wide = omega arith;
  small = omega arith;
  listed =
      λ fd. none_watched fd ∙ ap watched (sym (context_of-context_resize 32 [] fd (omega arith)));
  armed = λ fd.
      subst IsArmed (sym (context_of-context_resize 32 [] fd (omega arith)))
        (new_context-IsArmed (0 + fd));
}
