-- ===== src/Ports/Sweep.antt =====
-- The sweep of getFreePort finds a free port exactly if there is one.
use cmgr.Common.{
  ℕ, zero, suc, ◌+◌, ◌-◌, ◌≤◌, ◌<◌, ◌≡◌, ◌≢◌, ◌⊎◌, inl, inr, Bool, true, false, none, some, List,
  arith, ok, err, ltb, if◌then◌else◌, Bool-cases, Option-cases, sym, ◌∙◌,
}
use mathlib.Core.Bool.{false≢true}
use native.Mathlib.Decide.{ℕ_discrete, dec_lt}
use cmgr.Ports.{sweep, is_used, PortRange, get_free_port, all_in_use}

sweep_sound :
    (used : ℕ → Bool) (low high n port : ℕ) {p : ℕ}
    → low ≤ port
    → port ≤ high
    → sweep used low high n port ≡ some p
    → (low ≤ p) × (p ≤ high) × (used p ≡ false)
unfolding sweep
sweep_sound used low high zero port a b h = cc
sweep_sound used low high (suc n) port {p} a b h =
    ground
      (arith, sweep_sound used low high n (if ltb high (port + 1) then low else port + 1) {p = p})

-- After `n` rounds from `port` without a find, the ports passed are used: those from `port` on, and
-- those passed after the wrap at `high`.
sweep-none :
    (used : ℕ → Bool) (low high n port : ℕ)
    → low ≤ port
    → port ≤ high
    → sweep used low high n port ≡ none
    → (q : ℕ) → low ≤ q
    → q ≤ high
    → ((port ≤ q) × (q < port + n)) ⊎ (q + (high + 1) < port + n + low)
    → used q ≡ true
unfolding sweep
sweep-none used low high zero port a b h q c d e = absurd (omega arith)
sweep-none used low high (suc n) port a b h q c d e = elim (Bool-cases (used port)) [
  | inr free ↦ cc (rw (free, sweep) at h)
  | inl taken ↦ elim (ℕ_discrete port q) [
    | yes here ↦ rw (← here) taken
    | no other ↦ elim (dec_lt port high) [
      | yes below ↦
          sweep-none used low high n (port + 1) (omega arith) (omega arith) (ground (arith, taken))
            q c d (ground arith)
      | no last ↦
          sweep-none used low high n low (omega arith) (omega arith) (ground (arith, taken)) q c d
            (ground arith)
    ]
  ]
]

-- A port that is chosen from the range lies in it and is not assigned.
pub get_free_port_sound :
    (r : PortRange) (assigned : List ℕ) (offset : ℕ) {p : ℕ}
    → offset ≤ r.high - r.low
    → r.low ≤ r.high
    → get_free_port r assigned offset ≡ ok (some p)
    → (r.low ≤ p) × (p ≤ r.high) × (is_used assigned p ≡ false)
unfolding get_free_port
get_free_port_sound r assigned offset {p} o w h =
    sweep_sound (is_used assigned) r.low r.high (r.high + 1 - r.low) (r.low + offset) (omega arith)
      (omega arith) (ground arith)

-- The search fails only if every port of the range is assigned, wherever it starts.
pub get_free_port-all_in_use :
    (r : PortRange) (assigned : List ℕ) (offset : ℕ)
    → offset ≤ r.high - r.low
    → r.low ≤ r.high
    → get_free_port r assigned offset ≡ err all_in_use
    → (q : ℕ) → r.low ≤ q
    → q ≤ r.high
    → is_used assigned q ≡ true
unfolding get_free_port
get_free_port-all_in_use r assigned offset o w h q c d =
    sweep-none (is_used assigned) r.low r.high (r.high + 1 - r.low) (r.low + offset) (omega arith)
      (omega arith) (ground arith) q c d (ground arith)

outcome :
    (r : PortRange) (assigned : List ℕ) (offset : ℕ)
    → r.low ≢ 0
    → (get_free_port r assigned offset ≡ err all_in_use)
      ⊎ ((p : ℕ) × (get_free_port r assigned offset ≡ ok (some p)))
unfolding get_free_port
outcome r assigned offset pos =
    elim (Option-cases
      (sweep (is_used assigned) r.low r.high (r.high + 1 - r.low) (r.low + offset))) [
        | inl e ↦ inl (ground arith)
        | inr (p, e) ↦ inr (p, ground arith)
      ]

-- If a port of the range is free, getFreePort returns a free port of the range, whatever the random
-- offset into it, where the range is configured: its low end is not 0.
pub get_free_port_finds :
    (r : PortRange) (assigned : List ℕ) (offset q : ℕ)
    → r.low ≢ 0
    → offset ≤ r.high - r.low
    → r.low ≤ q
    → q ≤ r.high
    → is_used assigned q ≡ false
    → (p : ℕ) × (get_free_port r assigned offset ≡ ok (some p))
      × (r.low ≤ p)
      × (p ≤ r.high)
      × (is_used assigned p ≡ false)
get_free_port_finds r assigned offset q pos o c d free = elim (outcome r assigned offset pos) [
  | inl failed ↦ absurd (
      false≢true
        (sym free ∙ get_free_port-all_in_use r assigned offset o (omega arith) failed q c d))
  | inr (p, found) ↦
      let (l, h, u) = get_free_port_sound r assigned offset o (omega arith) found in
      (p, found, l, h, u)
]
