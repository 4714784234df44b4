-- ===== src/Ports.antt =====
-- Host ports: getPortRange, getFreePort, selectHostPort and inspectedPortAssignments of
-- cmgr/docker.go, and usedPortSet of cmgr/database.go.
pub mod Sweep
pub mod Range
mod Examples
use cmgr.Common.{
  ℕ, zero, suc, ◌+◌, ◌-◌, Bool, true, false, not, ◌&&◌, ◌||◌, Option, none, some, List, [], ◌∷◌,
  ◌==◌, ltb, leb, if◌then◌else◌, ℤ, pos, negsuc, int_lt, int_le, Text, split_byte, parse_int,
  is_empty, any, Result, ok, err, ◌>>=◌, ◌>>◌, reject_if, lookup, insert,
}

pub data PortError : Type 0 where
  malformed_range : PortError
  not_a_number : PortError
  bad_range : PortError
  all_in_use : PortError
  not_preservable : ℤ → PortError

abbrev pub atoi : Text → Result PortError ℤ
atoi s = elim (parse_int s) [ none ↦ err not_a_number | some z ↦ ok z ]

-- Both numbers are read before the range is looked at.
pub check_range : ℤ → ℤ → Result PortError (ℤ × ℤ)
check_range low high =
    if int_lt low (pos 1024) || int_le (pos 65536) high || int_lt high low
    then err bad_range
    else ok (low, high)

-- The two sides of the text, if it has exactly one '-'.
abbrev pub two_parts : List Text → Option (Text × Text)
two_parts [] = none
two_parts (a ∷ []) = none
two_parts (a ∷ b ∷ []) = some (a, b)
two_parts (a ∷ b ∷ c ∷ r) = none

pub read_range : Text → Text → Result PortError (ℤ × ℤ)
read_range a b = do low ← atoi a; high ← atoi b; check_range low high

abbrev pub range_of_parts : Option (Text × Text) → Result PortError (ℤ × ℤ)
range_of_parts none = err malformed_range
range_of_parts (some (a, b)) = read_range a b

-- The value of CMGR_PORTS; unset and empty are the same.
pub get_port_range : Text → Result PortError (ℤ × ℤ)
get_port_range value =
    if is_empty value then ok (pos 0, pos 0) else range_of_parts (two_parts (split_byte 45 value))

-- The loop of getFreePort, with the rounds left.
pub sweep : (ℕ → Bool) → ℕ → ℕ → ℕ → ℕ → Option ℕ
sweep used low high zero port = none
sweep used low high (suc n) port =
    let later = sweep used low high n (if ltb high (port + 1) then low else port + 1) in
    if used port then later else some port

pub record PortRange : Type 0 where
  pub low : ℕ
  pub high : ℕ

-- usedPortSet, as the test for membership; `assigned` is the port column of portAssignments.
abbrev pub is_used : List ℕ → ℕ → Bool
is_used assigned p = any (λ q. q == p) assigned

-- `offset` is the value of rand.Intn(numPorts). The result `none` is the empty string, which lets
-- Docker choose an ephemeral port.
pub get_free_port : PortRange → List ℕ → ℕ → Result PortError (Option ℕ)
get_free_port r assigned offset =
    if r.low == 0
    then ok none
    else elim (sweep (is_used assigned) r.low r.high (r.high + 1 - r.low) (r.low + offset)) [
      | none ↦ err all_in_use
      | some p ↦ ok (some p)
    ]

abbrev valid_port : ℤ → Bool
valid_port (pos n) = ltb 0 n && ltb n 65536
valid_port (negsuc n) = false

abbrev pub nonneg : ℤ → ℕ
nonneg (pos n) = n
nonneg (negsuc n) = 0

pub select_host_port : PortRange → List ℕ → ℕ → Text → List (Text × ℤ) → Result PortError (Option ℕ)
select_host_port r assigned offset name preferred = elim (lookup name preferred) [
  | some z ↦ if valid_port z then ok (some (nonneg z)) else err (not_preservable z)
  | none ↦ get_free_port r assigned offset
]

-- What inspecting a container reports; `bindings` maps a container port to its host ports.
pub record ContainerState : Type 0 where
  pub running : Bool
  pub paused : Bool
  pub restarting : Bool
  pub dead : Bool

pub record Inspection : Type 0 where
  pub state : Option ContainerState
  pub bindings : Option (List (Text × List Text))

pub data Inspected : Type 0 where
  no_state not_running : Inspected
  invalid_port : Text → Inspected
  not_ready : Inspected
  ready : List (Text × ℕ) → Inspected

-- The loop over the expected ports: container port and port name.
pub assign_ports : List (Text × List Text) → List (Text × Text) → List (Text × ℕ) → Inspected
assign_ports bindings [] done = ready done
assign_ports bindings ((port, name) ∷ rest) done = elim (lookup port bindings) [
  | none ↦ not_ready
  | some [] ↦ not_ready
  | some (h ∷ hs) ↦ elim (parse_int h) [
    | none ↦ invalid_port h
    | some z ↦
        let later = assign_ports bindings rest (insert name (nonneg z) done) in
        if valid_port z then later else invalid_port h
  ]
]

abbrev is_stopped : ContainerState → Bool
is_stopped c = not c.running || c.paused || c.restarting || c.dead

pub inspected_port_assignments : List (Text × Text) → Inspection → Inspected
inspected_port_assignments expected i = elim (i.state) [
  | none ↦ no_state
  | some c ↦ if is_stopped c then not_running else assign_expected expected i.bindings
]
  where
    assign_expected : List (Text × Text) → Option (List (Text × List Text)) → Inspected
    assign_expected [] b = ready []
    assign_expected (e ∷ es) none = not_ready
    assign_expected (e ∷ es) (some b) = assign_ports b (e ∷ es) []
