-- ===== src/Simple/Laws.antt =====
-- The two copy programs read alike.
use sem.Prelude.{◌≡◌, refl, Bool, List, [], ◌∷◌}
use sem.Prelude.Int.{ℤ}
use sem.Files.{my_read}
use sem.Simple.{simple_read}

simple_read_same : (results : List (ℤ × Bool)) → simple_read results ≡ my_read results
unfolding simple_read my_read
simple_read_same [] = refl
simple_read_same ((r, wrote) ∷ results) = rw (simple_read_same results) refl
