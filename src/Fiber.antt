-- ===== src/Fiber.antt =====
-- fatdog/fiber.cpp and fiber.h: the states of a fiber. The contexts of ucontext and the stacks are
-- not modelled: swapIn and swapOut change who runs.
use fatdog.Base.{ℕ, Option, none, some, Bool, true, false, if◌then◌else◌}

-- Fiber::State
pub data State : Type 0 where
  init hold exec term ready except : State

-- A fiber made with a function, by its id: m_cb and m_state.
pub record Fiber : Type 0 where
  pub cb : Option ℕ
  pub state : State

abbrev pub new_fiber : ℕ → Fiber
new_fiber f = record { cb = some f; state = init }

abbrev pub is_exec : State → Bool
is_exec init = false
is_exec hold = false
is_exec exec = true
is_exec term = false
is_exec ready = false
is_exec except = false

abbrev pub is_init : State → Bool
is_init init = true
is_init hold = false
is_init exec = false
is_init term = false
is_init ready = false
is_init except = false

abbrev pub is_ready : State → Bool
is_ready init = false
is_ready hold = false
is_ready exec = false
is_ready term = false
is_ready ready = true
is_ready except = false

abbrev pub is_term : State → Bool
is_term init = false
is_term hold = false
is_term exec = false
is_term term = true
is_term ready = false
is_term except = false

-- TERM or EXCEPT
abbrev pub is_over : State → Bool
is_over init = false
is_over hold = false
is_over exec = false
is_over term = true
is_over ready = false
is_over except = true

-- swapIn(), up to the fiber's code; none where its assertion fails.
unfoldable pub swap_in : Fiber → Option Fiber
swap_in f = if is_exec f.state then none else some (record f { state = exec })

-- YieldToReady() and YieldToHold() of a fiber, up to its swapOut.
unfoldable pub yield_to_ready : Fiber → Option Fiber
yield_to_ready f = if is_exec f.state then some (record f { state = ready }) else none

unfoldable pub yield_to_hold : Fiber → Option Fiber
yield_to_hold f = if is_exec f.state then some (record f { state = hold }) else none

-- MainFunc(), from the end of the function on: whether it has returned, or has thrown.
unfoldable pub main_func : Bool → Fiber → Fiber
main_func true f = record { cb = none; state = term }
main_func false f = record f { state = except }

-- reset(cb)
unfoldable pub reset : Option ℕ → Fiber → Option Fiber
reset cb f =
    if is_init f.state
    then some (record { cb = cb; state = init })
    else if is_over f.state
    then some (record { cb = cb; state = init })
    else none

-- The fiber's destructor passes its assertion.
unfoldable pub can_destroy : Fiber → Bool
can_destroy f = if is_init f.state then true else is_over f.state

-- How the code of a fiber that runs gives the thread back: by YieldToReady or YieldToHold, by its
-- end, by an exception, or by a swapOut of its own.
pub data Stop : Type 0 where
  yields_ready yields_hold finishes throws swaps_out : Stop

unfoldable pub stopped : Stop → Fiber → Option Fiber
stopped yields_ready f = yield_to_ready f
stopped yields_hold f = yield_to_hold f
stopped finishes f = some (main_func true f)
stopped throws f = some (main_func false f)
stopped swaps_out f = some f
