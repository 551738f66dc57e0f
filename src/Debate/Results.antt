-- ===== src/Debate/Results.antt =====
-- Chains of steps that may throw.
use bpt.Prelude.{◌≡◌, refl}
use bpt.Debate.{Result, ok, err, and_then}

pub and_then-eq-ok :
    {A B : Type 0} (m : Result A) (f : A → Result B) {b : B}
    → and_then m f ≡ ok b
    → (a : A) × (m ≡ ok a) × (f a ≡ ok b)
and_then-eq-ok (ok a) f h = (a, refl, h)
and_then-eq-ok (err e) f h = cc h
