-- ===== src/FdManager/Context.antt =====
-- The context of a descriptor: what init makes of it and of the system.
use fatdog.Base.{
  ℕ, ◌==◌, ◌≡◌, refl, sym, ap, ◌∙◌, subst, ◌^◌, ◌-◌, Option, none, some, Bool, true, false,
  if◌then◌else◌, arith, inl, inr, Bool-cases, Option-cases,
}
use fatdog.Base.Signed.{ℤ}
use mathlib.Core.Bool.{true≢false, false≢true}
use fatdog.FdManager.{System, FdCtx, probed, unblocked, init, new_ctx}

==_self : (n : ℕ) → (n == n) ≡ true
==_self n = ground arith

-- What init comes to for a context that is not initialised.
abbrev fresh : FdCtx → System → Option Bool → FdCtx × System
fresh ctx os st =
    unblocked (probed st (record ctx { recv_timeout = 2 ^ 64 - 1; send_timeout = 2 ^ 64 - 1 })) os

init-fresh :
    (ctx : FdCtx) (os : System) (st : Option Bool)
    → ctx.is_init ≡ false
    → os.stat ctx.fd ≡ st
    → init ctx os ≡ fresh ctx os st
unfolding init
init-fresh ctx os st h e =
    ap (λ c. if c then (ctx, os) else fresh ctx os (os.stat ctx.fd)) h ∙ ap (fresh ctx os) e

init_done : (ctx : FdCtx) (os : System) → ctx.is_init ≡ true → init ctx os ≡ (ctx, os)
unfolding init
init_done ctx os h = ap (λ c. if c then (ctx, os) else fresh ctx os (os.stat ctx.fd)) h

-- A second init of a context changes neither the context nor the system, also where the first has
-- not found the descriptor.
pub init_again : (ctx : FdCtx) (os : System) → init (init ctx os).0 (init ctx os).1 ≡ init ctx os
init_again ctx os = elim (Bool-cases ctx.is_init) [
  | inl h ↦ subst (λ r. init r.0 r.1 ≡ r) (sym (init_done ctx os h)) (init_done ctx os h)
  | inr h ↦ elim (Option-cases (os.stat ctx.fd)) [
    | inl e ↦
        subst (λ r. init r.0 r.1 ≡ r) (sym (init-fresh ctx os none h e))
          (init-fresh (fresh ctx os none).0 os none refl e)
    | inr (socket, e) ↦
        subst (λ r. init r.0 r.1 ≡ r) (sym (init-fresh ctx os (some socket) h e))
          (init_done (fresh ctx os (some socket)).0 (fresh ctx os (some socket)).1 refl)
  ]
]

-- After a context is made for `fd`.
pub record Made (fd : ℤ) (os : System) (ctx : FdCtx) (os' : System) : Type 0 where
  pub own : ctx.fd ≡ fd
  pub found : os.stat fd ≡ (if ctx.is_init then some ctx.is_socket else none)
  pub hooked : ctx.sys_nonblock ≡ ctx.is_socket
  pub user : ctx.user_nonblock ≡ false
  pub files : os'.file ≡ os.file
  pub nonblocking : ctx.is_socket ≡ true → os'.nonblock (os.file fd) ≡ true
  pub untouched : (f : ℕ) → (f == os.file fd) ≡ false → os'.nonblock f ≡ os.nonblock f
  pub left : ctx.is_socket ≡ false → os'.nonblock ≡ os.nonblock

abbrev blank : ℤ → FdCtx
blank fd = record {
  is_init = false;
  is_socket = false;
  sys_nonblock = false;
  user_nonblock = false;
  is_closed = false;
  fd = fd;
  recv_timeout = 2 ^ 64 - 1;
  send_timeout = 2 ^ 64 - 1;
}

fresh-Made :
    (fd : ℤ) (os : System) (st : Option Bool) (b : Bool)
    → os.stat fd ≡ st
    → os.nonblock (os.file fd) ≡ b
    → Made fd os (fresh (blank fd) os st).0 (fresh (blank fd) os st).1
fresh-Made fd os none b e k = record {
  own = refl;
  found = e;
  hooked = refl;
  user = refl;
  files = refl;
  nonblocking = λ h. absurd (false≢true h);
  untouched = λ f o. refl;
  left = λ h. refl;
}
fresh-Made fd os (some false) b e k = record {
  own = refl;
  found = e;
  hooked = refl;
  user = refl;
  files = refl;
  nonblocking = λ h. absurd (false≢true h);
  untouched = λ f o. refl;
  left = λ h. refl;
}
fresh-Made fd os (some true) true e k = record {
  own = refl;
  found = e;
  hooked = refl;
  user = refl;
  files = rw k refl;
  nonblocking = λ h. rw k k;
  untouched = λ f o. rw k refl;
  left = λ h. absurd (true≢false h);
}
fresh-Made fd os (some true) false e k = record {
  own = refl;
  found = e;
  hooked = refl;
  user = refl;
  files = rw k refl;
  nonblocking = λ h. rw (k, ==_self (os.file fd)) refl;
  untouched = λ f o. rw (k, o) refl;
  left = λ h. absurd (true≢false h);
}

-- The context made for a descriptor says what fstat found. For a socket the flag O_NONBLOCK is set
-- of the open file description that the descriptor refers to, and of no other, so that only
-- descriptors that share the description see the change; otherwise no flag is changed.
pub new_ctx-Made : (fd : ℤ) (os : System) → Made fd os (new_ctx fd os).0 (new_ctx fd os).1
unfolding new_ctx
new_ctx-Made fd os =
    subst (λ r. Made fd os r.0 r.1) (sym (init-fresh (blank fd) os (os.stat fd) refl refl))
      (fresh-Made fd os (os.stat fd) (os.nonblock (os.file fd)) refl refl)
