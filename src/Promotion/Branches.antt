-- ===== src/Promotion/Branches.antt =====
-- A predicate holds of what follows a call if it holds whether or not the call succeeds.
use cmgr.Common.{◌≡◌, refl, Bool, true, false}
use cmgr.Promotion.{World, attempt}

pub attempt_way :
    {A : Type 0} (holds : A → Type 0) (r : World × Bool) (failed next : World → A)
    → (r.1 ≡ false → holds (failed r.0))
    → (r.1 ≡ true → holds (next r.0))
    → holds (attempt r failed next)
attempt_way holds (w, true) failed next f g = g refl
attempt_way holds (w, false) failed next f g = f refl
