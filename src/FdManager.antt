-- ===== src/FdManager.antt =====
-- fatdog/fd_manager.cpp and fd_manager.h: what is kept of each file descriptor, and the table of it.
-- An FdCtx::ptr is an address, and the heap is a function from addresses. The calls of fstat and
-- fcntl are on the state of the system, which is given and handed on.
pub mod Table
pub mod Context
mod Runs
use fatdog.Base.{
  ℕ, zero, suc, ◌+◌, ◌-◌, ◌*◌, ◌/◌, ◌^◌, List, [], ◌∷◌, ◌++◌, Option, none, some, Bool, true, false,
  length, take, get_elem?, ◌==◌, if◌then◌else◌,
}
use fatdog.Base.Signed.{ℤ, pos, negsuc, size_le, size_le_neg}

-- `stat` is what fstat finds: nothing, or whether the descriptor is a socket. `file` is the open file
-- description that a descriptor refers to, which descriptors that are duplicated share, and
-- `nonblock` the status flag O_NONBLOCK of each description.
pub record System : Type 0 where
  pub stat : ℤ → Option Bool
  pub file : ℤ → ℕ
  pub nonblock : ℕ → Bool

pub record FdCtx : Type 0 where
  pub is_init : Bool
  pub is_socket : Bool
  pub sys_nonblock : Bool
  pub user_nonblock : Bool
  pub is_closed : Bool
  pub fd : ℤ
  pub recv_timeout : ℕ
  pub send_timeout : ℕ

-- fcntl_f(fd, F_SETFL, flags | O_NONBLOCK)
abbrev pub set_nonblock : ℤ → System → System
set_nonblock fd os = record os { nonblock = λ f. if f == os.file fd then true else os.nonblock f }

-- The part of init() that looks at the descriptor, by what fstat finds.
abbrev pub probed : Option Bool → FdCtx → FdCtx
probed none ctx = record ctx { is_init = false; is_socket = false }
probed (some socket) ctx = record ctx { is_init = true; is_socket = socket }

-- The part of init() behind it.
abbrev pub unblocked : FdCtx → System → FdCtx × System
unblocked ctx os = (
  record ctx { sys_nonblock = ctx.is_socket; user_nonblock = false; is_closed = false },
  if ctx.is_socket then if os.nonblock (os.file ctx.fd) then os else set_nonblock ctx.fd os else os,
)

-- init(); a timeout of -1 is the largest value of uint64_t.
unfoldable pub init : FdCtx → System → FdCtx × System
init ctx os =
    if ctx.is_init
    then (ctx, os)
    else unblocked
        (probed (os.stat ctx.fd)
          (record ctx { recv_timeout = 2 ^ 64 - 1; send_timeout = 2 ^ 64 - 1 }))
        os

-- FdCtx(int fd)
unfoldable pub new_ctx : ℤ → System → FdCtx × System
unfolding init
new_ctx fd os =
    init
      (record {
        is_init = false;
        is_socket = false;
        sys_nonblock = false;
        user_nonblock = false;
        is_closed = false;
        fd = fd;
        recv_timeout = 2 ^ 64 - 1;
        send_timeout = 2 ^ 64 - 1;
      })
      os

-- The types of a timeout: SO_RCVTIMEO, and any other.
pub data TimeoutType : Type 0 where
  recv other : TimeoutType

-- setUserNonblock(v) and setSysNonblock(v)
abbrev pub set_user_nonblock : Bool → FdCtx → FdCtx
set_user_nonblock v ctx = record ctx { user_nonblock = v }

abbrev pub set_sys_nonblock : Bool → FdCtx → FdCtx
set_sys_nonblock v ctx = record ctx { sys_nonblock = v }

unfoldable pub set_timeout : TimeoutType → ℕ → FdCtx → FdCtx
set_timeout recv v ctx = record ctx { recv_timeout = v }
set_timeout other v ctx = record ctx { send_timeout = v }

unfoldable pub get_timeout : TimeoutType → FdCtx → ℕ
get_timeout recv ctx = ctx.recv_timeout
get_timeout other ctx = ctx.send_timeout

pub record FdManager : Type 0 where
  pub heap : ℕ → FdCtx
  pub datas : List (Option ℕ)

-- A call returns, or indexes the vector out of its range.
pub data Outcome {ℓ} (A : Type ℓ) : Type ℓ where
  returns : A → FdManager → System → Outcome A
  crash : Outcome A

abbrev pub nulls : ℕ → List (Option ℕ)
nulls zero = []
nulls (suc n) = none ∷ nulls n

-- m_datas.resize(n)
abbrev pub resize : ℕ → List (Option ℕ) → List (Option ℕ)
resize n xs = take n xs ++ nulls (n - length xs)

-- m_datas[i] = p; `none` where the index is out of range.
abbrev pub set_elem? : List (Option ℕ) → ℕ → Option ℕ → Option (List (Option ℕ))
set_elem? [] i p = none
set_elem? (x ∷ xs) zero p = some (p ∷ xs)
set_elem? (x ∷ xs) (suc i) p = elim (set_elem? xs i p) [ none ↦ none | some ys ↦ some (x ∷ ys) ]

-- FdManager()
abbrev pub new_manager : (ℕ → FdCtx) → FdManager
new_manager heap = record { heap = heap; datas = nulls 64 }

abbrev pub put : ℕ → FdCtx → (ℕ → FdCtx) → ℕ → FdCtx
put a ctx heap x = if x == a then ctx else heap x

-- The end of get: the vector with the new context in it.
abbrev pub placed : ℕ → FdCtx → FdManager → System → Option (List (Option ℕ)) → Outcome (Option ℕ)
placed at ctx m os none = crash
placed at ctx m os (some datas) =
    returns (some at) (record { heap = put at ctx m.heap; datas = datas }) os

-- The part of get that makes a context for the descriptor `n`, at the address `at`.
unfoldable pub create : ℕ → ℕ → FdManager → System → Outcome (Option ℕ)
unfolding new_ctx
create n at m os =
    let made = new_ctx (pos n) os in
    let datas = if size_le (length m.datas) n then resize (n * 3 / 2) m.datas else m.datas in
    placed at made.0 m made.1 (set_elem? datas n (some at))

-- get by what stands at m_datas[n], `none` where it is out of range.
abbrev pub get_of : ℕ → Bool → ℕ → FdManager → System → Option (Option ℕ) → Outcome (Option ℕ)
get_of n auto_create at m os none = crash
get_of n auto_create at m os (some none) =
    if auto_create then create n at m os else returns none m os
get_of n auto_create at m os (some (some p)) = returns (some p) m os

-- get(int fd, bool auto_create). A descriptor below -1 is at or above no size but one whose cast is
-- negative; with auto_create its 1.5-fold, which is negative, is then cast to size_t, and without
-- such a size it indexes the vector.
unfoldable pub get : ℤ → Bool → ℕ → FdManager → System → Outcome (Option ℕ)
get (pos n) auto_create at m os =
    if size_le (length m.datas) n
    then if auto_create then create n at m os else returns none m os
    else get_of n auto_create at m os (get_elem? m.datas n)
get (negsuc zero) auto_create at m os = returns none m os
get (negsuc (suc n)) auto_create at m os =
    if size_le_neg (length m.datas) (suc n)
    then if auto_create then crash else returns none m os
    else crash

-- del by the vector with null at m_datas[n], `none` where it is out of range.
abbrev pub del_of : FdManager → System → Option (List (Option ℕ)) → Outcome (Unit {0})
del_of m os none = crash
del_of m os (some datas) = returns tt (record m { datas = datas }) os

-- del(int fd)
unfoldable pub del : ℤ → FdManager → System → Outcome (Unit {0})
del (pos n) m os =
    if size_le (length m.datas) n then returns tt m os else del_of m os (set_elem? m.datas n none)
del (negsuc n) m os = if size_le_neg (length m.datas) n then returns tt m os else crash
