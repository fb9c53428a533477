-- ===== src/Simple/Tests.antt =====
-- stupid_my_cp.c at concrete results of the system calls.
use sem.Prelude.{◌≡◌, refl, false, none, some, [], ◌∷◌}
use sem.Prelude.Int.{pos, negsuc}
use sem.Simple.{simple_read, simple_copy, simple_main}

no_source : simple_main (negsuc 0) (pos 4) (pos 4) (λ fd. none) ≡ some (pos 1)
unfolding simple_copy
no_source = refl

-- A write that fails is not noticed.
hidden :
    (simple_read ((pos 5, false) ∷ []) ≡ some false)
    × (simple_main (pos 3) (negsuc 0) (pos 4) (λ fd. simple_read ((pos 5, false) ∷ []))
        ≡ some (pos 0))
unfolding simple_read simple_copy
hidden = (refl, refl)
