-- ===== src/FdManager/Runs.antt =====
-- The theorems on the table of descriptors at concrete inputs.
use fatdog.Base.{◌==◌, Option, Bool, ◌≡◌, refl, if◌then◌else◌, none, some, true, false, arith}
use fatdog.Base.Signed.{ℤ, pos, negsuc, to_signed, size_le_neg}
use fatdog.FdManager.{System, FdCtx, FdManager, returns, crash, new_manager, new_ctx, get, del}
use fatdog.FdManager.Table.{IsValid, Created, get-Created, Deleted, del-Deleted}
use fatdog.FdManager.Context.{Made, new_ctx-Made}

-- Descriptor 70 is a socket, the others are closed.
abbrev stat_of : ℤ → Option Bool
stat_of (pos n) = if n == 70 then some true else none
stat_of (negsuc n) = none

abbrev system : System
system = record { stat = stat_of; file = λ fd. 5; nonblock = λ f. false }

abbrev context : FdCtx
context = record {
  is_init = false;
  is_socket = false;
  sys_nonblock = false;
  user_nonblock = false;
  is_closed = false;
  fd = pos 70;
  recv_timeout = 0;
  send_timeout = 0;
}

abbrev manager : FdManager
manager = new_manager (λ a. context)

manager-IsValid : IsValid manager
manager-IsValid = record { wide = omega arith }

get-Created_example :
    (m : FdManager) × (get (pos 70) true 1 manager system
      ≡ returns (some 1) m (new_ctx (pos 70) system).1)
    × Created 70 1 (new_ctx (pos 70) system).0 manager m
    × (get (pos 70) false 2 m system ≡ returns (some 1) m system)
get-Created_example =
    get-Created 70 1 manager system false 2 system manager-IsValid (omega arith) (omega arith) refl

del-Deleted_example :
    (m : FdManager) × (del (pos 3) manager system ≡ returns tt m system)
    × Deleted 3 manager m
    × (get (pos 3) false 1 m system ≡ returns none m system)
del-Deleted_example = del-Deleted 3 1 manager system manager-IsValid

new_ctx-Made_example : Made (pos 70) system (new_ctx (pos 70) system).0 (new_ctx (pos 70) system).1
new_ctx-Made_example = new_ctx-Made (pos 70) system

-- The descriptor -1 is refused by get, and indexes the table out of its range in del.
get_minus_one : get (negsuc 0) true 1 manager system ≡ returns none manager system
unfolding get
get_minus_one = refl

del_minus_one : del (negsuc 0) manager system ≡ crash
unfolding del size_le_neg to_signed
del_minus_one = refl
