-- ===== src/Common/Branches.antt =====
-- A predicate on the outcome of a branch holds if it holds on every way through.
use mathlib.Core.Path.{◌≡◌, refl}
use mathlib.Core.Bool.{Bool, true, false}
use mathlib.Core.Option.{Option, none, some}
use cmgr.Common.Tests.{if◌then◌else◌}

pub either_way :
    {A : Type 0} (holds : A → Type 0) (t : Bool) (x y : A)
    → (t ≡ false → holds x)
    → (t ≡ true → holds y)
    → holds (if t then y else x)
either_way holds true x y f g = g refl
either_way holds false x y f g = f refl

pub option_way :
    {A V : Type 0} (holds : A → Type 0) (o : Option V) (x : A) (y : V → A)
    → (o ≡ none → holds x)
    → ((v : V) → o ≡ some v → holds (y v))
    → holds (elim o [ none ↦ x | some v ↦ y v ])
option_way holds none x y f g = f refl
option_way holds (some v) x y f g = g v refl
