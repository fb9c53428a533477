-- ===== src/Sems/Tests.antt =====
-- The operations at concrete values, and the theorems there.
use sem.Prelude.{◌≡◌, refl, update}
use sem.Prelude.Int.{pos}
use sem.Sems.{Values, next, waits, exits, p_oper, v_oper}
use sem.Sems.Model.{kernel_semop}

-- Semaphore 0 is 3, the others are 0.
abbrev three : Values
three = update (λ _. 0) 0 3

waits_for_more : p_oper (kernel_semop 2) three 0 (pos 4) ≡ waits
unfolding p_oper kernel_semop
waits_for_more = refl

-- There is no semaphore 2 in a set of two.
no_such_semaphore : v_oper (kernel_semop 2) three 2 (pos 1) ≡ exits
unfolding v_oper kernel_semop
no_such_semaphore = refl

took_two : p_oper (kernel_semop 2) three 0 (pos 2) ≡ next (update three 0 1)
unfolding p_oper kernel_semop
took_two = refl
