-- ===== src/Loader/Dockerfile.antt =====
-- processDockerfile of cmgr/loader.go: which Dockerfile a challenge has, which of its stages are launched,
-- and which ports they publish. The regular expressions are an argument: what they match in a text.
mod Declared
mod Ports
mod Stages
mod Sound
mod Examples
use cmgr.Common.{
  ℕ, ◌*◌, Bool, true, false, not, ◌&&◌, ◌||◌, Option, none, some, List, [], ◌∷◌, any, ltb,
  if◌then◌else◌, length, Text, codes, text_eq, is_empty, lookup, insert, ℤ, pos, int_eq, int_le,
  parse_int, Result, ok, err, ◌>>=◌, ◌>>◌, reject_if,
}
use cmgr.Changes.{is_hacksport_challenge_type}

pub data DockerfileError : Type 0 where
  no_challenge_py irregular_challenge_py no_type no_dockerfile forbidden_dockerfile unknown_type :
      DockerfileError
  not_readable too_large empty_dockerfile no_from launched_twice not_a_target : DockerfileError
  bad_port not_launched same_endpoint not_a_number no_stage_name builder_port : DockerfileError
  declared_twice aliased bad_option_host : DockerfileError

pub record HostInfo : Type 0 where
  pub name : Text
  pub target : Text

pub record PortInfo : Type 0 where
  pub host : Text
  pub port : ℤ

-- A FROM line: where it starts, and the name after AS, empty if there is none.
pub record Stage : Type 0 where
  pub start : ℕ
  pub target : Text

-- A PUBLISH comment: where it starts, the digits of the port, and its name.
pub record Publish : Type 0 where
  pub start : ℕ
  pub digits : Text
  pub name : Text

-- What the three expressions match in a Dockerfile, in order; of LAUNCH, the words of the first match.
pub record Directives : Type 0 where
  pub stages : List Stage
  pub published : List Publish
  pub launch : Option (List Text)

-- What the directory of the challenge answers: whether challenge.py can be read and is a regular file,
-- whether there is a Dockerfile, and the bytes that are read of it, where that succeeds.
pub record Files : Type 0 where
  pub challenge_py : Option Bool
  pub has_dockerfile : Bool
  pub custom : Option Text

abbrev pub max_dockerfile_bytes : ℕ
max_dockerfile_bytes = 4 * 1024 * 1024

abbrev check_challenge_py : Option Bool → Bool → Result DockerfileError (Unit {0})
check_challenge_py none needed = reject_if needed no_challenge_py
check_challenge_py (some regular) needed = reject_if (needed && not regular) irregular_challenge_py

abbrev is_none : Option Text → Bool
is_none none = true
is_none (some t) = false

-- The Dockerfiles that come with the program are an argument, by the type of the challenge.
abbrev check_type : (Text → Option Text) → Files → Text → Result DockerfileError (Unit {0})
check_type embedded f kind =
    if is_empty kind
    then err no_type
    else if text_eq kind (codes "custom")
    then reject_if (not f.has_dockerfile) no_dockerfile
    else if f.has_dockerfile
    then err forbidden_dockerfile
    else reject_if (is_none (embedded kind)) unknown_type

abbrev read_custom : Option Text → Result DockerfileError Text
read_custom none = err not_readable
read_custom (some t) = if ltb max_dockerfile_bytes (length t) then err too_large else ok t

abbrev or_empty : Option Text → Text
or_empty none = []
or_empty (some t) = t

abbrev not_empty : Text → Result DockerfileError Text
not_empty t = if is_empty t then err empty_dockerfile else ok t

pub choose_dockerfile : (Text → Option Text) → Files → Text → Result DockerfileError Text
choose_dockerfile embedded f kind = do
  check_challenge_py f.challenge_py (is_hacksport_challenge_type kind)
  check_type embedded f kind
  content ←
      (if text_eq kind (codes "custom")
        then read_custom f.custom
        else ok (or_empty (embedded kind)))
  not_empty content

abbrev no_more : List Stage → Bool
no_more [] = true
no_more (s ∷ r) = false

-- The host of each stage, with the start of the stage.
abbrev pub host_names : List Stage → List (ℕ × HostInfo)
host_names [] = []
host_names (s ∷ rest) =
    (
      s.start,
      record {
        name = if is_empty s.target && no_more rest then codes "challenge" else s.target;
        target = s.target;
      },
    )
    ∷ host_names rest

abbrev builder : Text
builder = codes "builder"

abbrev pub builder_host : HostInfo
builder_host = record { name = builder; target = builder }

-- The first host of that name.
abbrev pub find_host : Text → List (ℕ × HostInfo) → Result DockerfileError HostInfo
find_host n [] = err not_a_target
find_host n (h ∷ hosts) =
    let rest = find_host n hosts in if text_eq n h.1.name then ok (h.1) else rest

abbrev pub launch_hosts :
    List (ℕ × HostInfo) → List Text → List Text → Result DockerfileError (List HostInfo)
launch_hosts hosts launched [] = ok []
launch_hosts hosts launched (n ∷ ns) = do
  reject_if (any (text_eq n) launched) launched_twice
  host ← find_host n hosts
  more ← launch_hosts hosts (n ∷ launched) ns
  ok (host ∷ more)

abbrev pub last_host : HostInfo → List (ℕ × HostInfo) → HostInfo
last_host h [] = h
last_host h (g ∷ hosts) = last_host (g.1) hosts

abbrev pub chosen_hosts :
    HostInfo → List (ℕ × HostInfo) → Option (List Text) → Result DockerfileError (List HostInfo)
chosen_hosts first hosts none = ok (last_host first hosts ∷ [])
chosen_hosts first hosts (some launches) = launch_hosts hosts [] launches

-- The loop over the stages finds a target `builder`.
abbrev has_builder : List Stage → Bool
has_builder stages = any (λ s. text_eq s.target builder) stages

abbrev pub is_launched : List HostInfo → Text → Bool
is_launched hosts n = any (λ h. text_eq h.name n) hosts

abbrev pub is_port : ℤ → Bool
is_port p = not (int_le p (pos 0) || int_le (pos 65536) p)

abbrev pub endpoint_eq : PortInfo → PortInfo → Bool
endpoint_eq d e = text_eq d.host e.host && int_eq d.port e.port

-- endpointNames, the last entry first.
abbrev pub name_of : PortInfo → List (PortInfo × Text) → Option Text
name_of e [] = none
name_of e ((d, n) ∷ names) = let rest = name_of e names in if endpoint_eq d e then some n else rest

abbrev is_named : Option Text → Bool
is_named n = not (is_none n)

-- The loop over the ports that the challenge file names.
pub check_port_map :
    List HostInfo
    → List (PortInfo × Text)
    → List (Text × PortInfo)
    → Result DockerfileError (List (PortInfo × Text))
check_port_map hosts names [] = ok names
check_port_map hosts names ((n, e) ∷ ports) = do
  reject_if (not (is_port e.port)) bad_port
  reject_if (not (is_launched hosts e.host) || text_eq e.host builder) not_launched
  reject_if (is_named (name_of e names)) same_endpoint
  check_port_map hosts ((e, n) ∷ names) ports

-- The stage that a position is in, from the current one and those that follow.
pub advance : ℕ → HostInfo → List (ℕ × HostInfo) → HostInfo × List (ℕ × HostInfo)
advance position host [] = (host, [])
advance position host ((start, h) ∷ rest) =
    let further = advance position h rest in
    if ltb start position then further else (host, (start, h) ∷ rest)

abbrev port_number : Text → Result DockerfileError ℤ
port_number digits = elim (parse_int digits) [ none ↦ err not_a_number | some n ↦ ok n ]

-- The loop over the PUBLISH comments.
pub publish_ports :
    List HostInfo
    → HostInfo × List (ℕ × HostInfo)
    → List (PortInfo × Text)
    → List (Text × PortInfo)
    → List Publish
    → Result DockerfileError (List (Text × PortInfo))
publish_ports hosts stage names ports [] = ok ports
publish_ports hosts stage names ports (p ∷ ps) =
    let at = advance p.start (stage.0) (stage.1) in
    let host = at.0.name in
    do
      port ← port_number p.digits
      reject_if (not (is_port port)) bad_port
      reject_if (is_empty host) no_stage_name
      reject_if (text_eq host builder) builder_port
      reject_if (not (is_launched hosts host)) not_launched
      let endpoint : PortInfo = record { host = host; port = port }
      reject_if (elim (lookup p.name ports) [ none ↦ false | some e ↦ true ]) declared_twice
      reject_if (is_named (name_of endpoint names)) aliased
      publish_ports hosts at ((endpoint, p.name) ∷ names) (insert p.name endpoint ports) ps

-- The hosts for which the challenge has options.
abbrev pub check_option_hosts : List HostInfo → List Text → Result DockerfileError (Unit {0})
check_option_hosts hosts [] = ok tt
check_option_hosts hosts (h ∷ hs) = do
  reject_if (not (is_empty h) && not (is_launched hosts h && not (text_eq h builder)))
      bad_option_host
  check_option_hosts hosts hs

pub record Loaded : Type 0 where
  pub hosts : List HostInfo
  pub port_map : List (Text × PortInfo)

-- What follows from the directives, for the ports and the option hosts of the challenge file.
pub publish :
    ℕ × HostInfo
    → List (ℕ × HostInfo)
    → Directives
    → List (Text × PortInfo)
    → List Text
    → Result DockerfileError Loaded
publish first others d ports options = do
  chosen ← chosen_hosts (first.1) (first ∷ others) d.launch
  let hosts : List HostInfo = if has_builder d.stages then builder_host ∷ chosen else chosen
  names ← check_port_map hosts [] ports
  all_ports ← publish_ports hosts (first.1, others) names ports d.published
  check_option_hosts hosts options
  ok (record { hosts = hosts; port_map = all_ports })

abbrev publish_stages :
    List (ℕ × HostInfo)
    → Directives
    → List (Text × PortInfo)
    → List Text
    → Result DockerfileError Loaded
publish_stages [] d ports options = err no_from
publish_stages (first ∷ others) d ports options = publish first others d ports options

pub process_dockerfile :
    (Text → Directives)
    → (Text → Option Text)
    → Files
    → Text
    → List (Text × PortInfo)
    → List Text
    → Result DockerfileError Loaded
process_dockerfile scan embedded files kind ports options = do
  content ← choose_dockerfile embedded files kind
  publish_stages (host_names (scan content).stages) (scan content) ports options
