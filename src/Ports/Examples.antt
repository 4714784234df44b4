-- ===== src/Ports/Examples.antt =====
-- Concrete ranges of ports.
use cmgr.Common.{◌≡◌, ◌≤◌, ◌∷◌, [], refl, false, some, ok, arith, ℕ}
use cmgr.Ports.{PortRange, get_free_port, is_used}
use cmgr.Ports.Sweep.{get_free_port_finds}

abbrev three : PortRange
three = record { low = 5000; high = 5002 }

get_free_port_finds_example :
    (p : ℕ) × (get_free_port three (5002 ∷ 5000 ∷ []) 1 ≡ ok (some p))
    × (5000 ≤ p)
    × (p ≤ 5002)
    × (is_used (5002 ∷ 5000 ∷ []) p ≡ false)
get_free_port_finds_example =
    get_free_port_finds three (5002 ∷ 5000 ∷ []) 1 5001 (omega arith) (omega arith) (omega arith)
      (omega arith) refl
