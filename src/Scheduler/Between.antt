-- ===== src/Scheduler/Between.antt =====
-- The state between two rounds: the invariant, and what cb_fiber is left as.
use fatdog.Base.{
  ℕ, ◌+◌, ◌^◌, ◌<◌, ◌≡◌, refl, sym, ap, ◌∙◌, subst, Option, none, some, Bool, true, false,
  if◌then◌else◌, arith,
}
use fatdog.Base.Words.{add64, sub64, add64_lem, sub64_lem}
use mathlib.Core.Bool.{false≢true}
use fatdog.Fiber.{
  State, init, Fiber, is_exec, is_init, is_over, reset, Stop, yields_ready, yields_hold, finishes,
  throws, swaps_out,
}
use fatdog.Scheduler.{Scheduler, Locals, is_some}
use fatdog.Scheduler.Swap.{cb_settled, cb_kept}

abbrev pub can_reset : State → Bool
can_reset s = if is_init s then true else is_over s

-- A fiber that reset takes, with no function.
abbrev pub IsBlank : Fiber → Type 0
IsBlank f = (can_reset f.state ≡ true) × (f.cb ≡ none)

abbrev pub IsReusable : (ℕ → Fiber) → Option ℕ → Type 0
IsReusable heap cb_fiber = (a : ℕ) → cb_fiber ≡ some a → IsBlank (heap a)

-- Between two rounds no fiber is in EXEC, cb_fiber can be reset, and the counts have room for one.
pub record IsValid {W : Type 0} (s : Scheduler W) (l : Locals) : Type 0 where
  pub free : (a : ℕ) → is_exec (s.heap a).state ≡ false
  pub idle_free : is_exec l.idle_state ≡ false
  pub reusable : IsReusable s.heap l.cb_fiber
  pub few_active : s.active_count + 1 < 2 ^ 64
  pub few_idle : s.idle_count + 1 < 2 ^ 64

pub one_more_less : (n : ℕ) → n + 1 < 2 ^ 64 → sub64 (add64 n 1) 1 ≡ n
one_more_less n h =
    ap (λ k. sub64 k 1) (add64_lem n 1 h) ∙ sub64_lem (n + 1) 1 (omega arith) h ∙ omega arith

pub reset_lem :
    (cb : Option ℕ) (f : Fiber)
    → can_reset f.state ≡ true
    → reset cb f ≡ some (record { cb = cb; state = init })
unfolding reset
reset_lem cb f h = ground arith

pub is_init-can_reset : (s : State) → can_reset s ≡ true → is_over s ≡ false → is_init s ≡ true
is_init-can_reset s h k = ground arith

pub cb_settled-is_exec : (stop : Stop) (f : Fiber) → is_exec (cb_settled stop f).state ≡ false
cb_settled-is_exec yields_ready f = refl
cb_settled-is_exec yields_hold f = refl
cb_settled-is_exec finishes f = refl
cb_settled-is_exec throws f = refl
cb_settled-is_exec swaps_out f = refl

blank_at :
    (a : ℕ) (heap : ℕ → Fiber)
    → heap a ≡ record { cb = none; state = init }
    → IsReusable heap (some a)
blank_at a heap h b e = subst IsBlank (sym (ap heap (sym (ap (id_of a) e)) ∙ h)) (refl, refl)
  where
    id_of : ℕ → Option ℕ → ℕ
    id_of d none = d
    id_of d (some a) = a

pub cb_kept-IsReusable :
    (a : ℕ) (stop : Stop) (f : Fiber) (heap : ℕ → Fiber)
    → heap a ≡ cb_settled stop f
    → IsReusable heap (cb_kept a stop)
cb_kept-IsReusable a yields_ready f heap h b e = absurd (false≢true (ap is_some e))
cb_kept-IsReusable a yields_hold f heap h b e = absurd (false≢true (ap is_some e))
cb_kept-IsReusable a finishes f heap h b e = blank_at a heap h b e
cb_kept-IsReusable a throws f heap h b e = blank_at a heap h b e
cb_kept-IsReusable a swaps_out f heap h b e = absurd (false≢true (ap is_some e))
