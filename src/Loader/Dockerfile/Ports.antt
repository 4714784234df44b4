-- ===== src/Loader/Dockerfile/Ports.antt =====
-- The loop over the published ports of the Dockerfile: every port is recorded, at the host of its stage.
use cmgr.Common.{
  ℕ, subst, Option-cases, none, some, List, [], ◌∷◌, ◌≡◌, refl, arith, Text, text_eq, text_eq_iff,
  lookup, insert, lookup-insert, ℤ, ok, Bool-cases, inl, inr, parse_int,
}
use cmgr.Loader.Dockerfile.{HostInfo, PortInfo, Publish, publish_ports, advance, is_port, name_of}
use cmgr.Loader.Dockerfile.Declared.{
  CanPublish, IsRecorded, is_named-none, name_of-cons, name_of_head,
}

-- Each comment has its port in the table, at the host of the stage that the loop has reached.
abbrev pub ArePublished :
    HostInfo × List (ℕ × HostInfo) → List (Text × PortInfo) → List Publish → Type 0
ArePublished stage table [] = Unit
ArePublished stage table (p ∷ ps) =
    ((n : ℤ) × (parse_int p.digits ≡ some n)
      × (lookup p.name table
          ≡ some (record { host = (advance p.start (stage.0) (stage.1)).0.name; port = n })))
    × ArePublished (advance p.start (stage.0) (stage.1)) table ps

module _ (hosts : List HostInfo) where
  -- What one round of the loop establishes.
  record IsRound (stage : HostInfo × List (ℕ × HostInfo)) (names : List (PortInfo × Text))
      (ports : List (Text × PortInfo)) (p : Publish) (ps : List Publish)
      (table : List (Text × PortInfo)) : Type 0 where
    pub number : ℤ
    pub parsed : parse_int p.digits ≡ some number
    pub endpoint : PortInfo
    pub at_stage :
        endpoint ≡ record { host = (advance p.start (stage.0) (stage.1)).0.name; port = number }
    pub can : CanPublish hosts endpoint
    pub undeclared : lookup p.name ports ≡ none
    pub unnamed : name_of endpoint names ≡ none
    pub others :
        publish_ports hosts
          (advance p.start (stage.0) (stage.1))
          ((endpoint, p.name) ∷ names)
          (insert p.name endpoint ports)
          ps
        ≡ ok table

  publish_ports-cons :
      (stage : HostInfo × List (ℕ × HostInfo)) (names : List (PortInfo × Text))
      (ports : List (Text × PortInfo)) (p : Publish) (ps : List Publish)
      {table : List (Text × PortInfo)}
      → publish_ports hosts stage names ports (p ∷ ps) ≡ ok table
      → IsRound stage names ports p ps table
  unfolding publish_ports
  publish_ports-cons stage names ports p ps h =
      let host = (advance p.start (stage.0) (stage.1)).0.name in
      elim (Option-cases (parse_int p.digits)) [
        | inl z ↦ absurd (ground (arith, h, z))
        | inr (n, z) ↦ elim (Bool-cases (is_port n)) [
          | inr a ↦ absurd (ground (arith, h, z, a))
          | inl a ↦ record {
            number = n;
            parsed = z;
            endpoint = record { host = host; port = n };
            at_stage = refl;
            can = record {
              valid = a;
              launched = ground (arith, h, z, a);
              serves = ground (arith, h, z, a);
            };
            undeclared = ground (arith, h, z, a);
            unnamed = is_named-none _ (ground (arith, h, z, a));
            others = ground (arith, h, z, a);
          }
        ]
      ]

  insert-IsRecorded :
      (names : List (PortInfo × Text)) (ports : List (Text × PortInfo)) (n : Text) (e : PortInfo)
      → IsRecorded hosts names ports
      → CanPublish hosts e
      → name_of e names ≡ none
      → IsRecorded hosts ((e, n) ∷ names) (insert n e ports)
  insert-IsRecorded names ports n e old can unnamed = record {
    each = λ k d l. elim (Bool-cases (text_eq n k)) [
      | inl same ↦ ground (arith, l, same, lookup-insert n k e ports, can)
      | inr other ↦ old.each k d (ground (arith, l, other, lookup-insert n k e ports))
    ];
    named = λ k d l. elim (Bool-cases (text_eq n k)) [
      | inl same ↦
          ground
            (arith, l, same, lookup-insert n k e ports, text_eq_iff n k, name_of_head e n names)
      | inr other ↦
          name_of-cons d e k n names unnamed
            (old.named k d (ground (arith, l, other, lookup-insert n k e ports)))
    ];
  }

  pub publish_ports-IsRecorded :
      (stage : HostInfo × List (ℕ × HostInfo)) (names : List (PortInfo × Text))
      (ports : List (Text × PortInfo)) (ps : List Publish) {table : List (Text × PortInfo)}
      → IsRecorded hosts names ports
      → publish_ports hosts stage names ports ps ≡ ok table
      → (names' : List (PortInfo × Text)) × IsRecorded hosts names' table
  publish_ports-IsRecorded stage names ports [] {table} old h =
      let same : ports ≡ table = (unfold publish_ports in cc) in
      (names, subst (IsRecorded hosts names) same old)
  publish_ports-IsRecorded stage names ports (p ∷ ps) old h =
      let r = publish_ports-cons stage names ports p ps h in
      publish_ports-IsRecorded (advance p.start (stage.0) (stage.1)) ((r.endpoint, p.name) ∷ names)
        (insert p.name r.endpoint ports) ps
        (insert-IsRecorded names ports p.name r.endpoint old r.can r.unnamed) r.others

  -- The ports of the challenge file stay.
  pub publish_ports-lookup :
      (stage : HostInfo × List (ℕ × HostInfo)) (names : List (PortInfo × Text))
      (ports : List (Text × PortInfo)) (ps : List Publish) {table : List (Text × PortInfo)}
      → publish_ports hosts stage names ports ps ≡ ok table
      → (n : Text) (e : PortInfo) → lookup n ports ≡ some e
      → lookup n table ≡ some e
  publish_ports-lookup stage names ports [] h n e l = unfold publish_ports in cc
  publish_ports-lookup stage names ports (p ∷ ps) h n e l =
      let r = publish_ports-cons stage names ports p ps h in
      publish_ports-lookup (advance p.start (stage.0) (stage.1)) ((r.endpoint, p.name) ∷ names)
        (insert p.name r.endpoint ports) ps r.others n e
        (ground
          (arith, l, r.undeclared, lookup-insert p.name n r.endpoint ports, text_eq_iff p.name n))

  pub publish_ports-ArePublished :
      (stage : HostInfo × List (ℕ × HostInfo)) (names : List (PortInfo × Text))
      (ports : List (Text × PortInfo)) (ps : List Publish) {table : List (Text × PortInfo)}
      → publish_ports hosts stage names ports ps ≡ ok table
      → ArePublished stage table ps
  publish_ports-ArePublished stage names ports [] h = tt
  publish_ports-ArePublished stage names ports (p ∷ ps) h =
      let r = publish_ports-cons stage names ports p ps h in
      let at = advance p.start (stage.0) (stage.1) in
      (
        (
          r.number,
          r.parsed,
          publish_ports-lookup at ((r.endpoint, p.name) ∷ names) (insert p.name r.endpoint ports) ps
              r.others p.name _
              (ground (
                arith,
                r.at_stage,
                lookup-insert p.name p.name r.endpoint ports,
                text_eq_iff p.name p.name,
              )),
        ),
        publish_ports-ArePublished at ((r.endpoint, p.name) ∷ names)
            (insert p.name r.endpoint ports) ps r.others,
      )
