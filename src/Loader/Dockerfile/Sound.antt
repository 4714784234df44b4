-- ===== src/Loader/Dockerfile/Sound.antt =====
-- What an accepted Dockerfile is published as.
use cmgr.Common.{
  ℕ, true, false, Option, some, List, [], ◌∷◌, ◌≡◌, ◌⊎◌, sym, ap, ◌∙◌, arith, Text, text_eq,
  is_empty, lookup, ℤ, ok, Bool-cases, inl, inr, Result-cases, any, subst, if◌then◌else◌, All,
  parse_int,
}
use cmgr.Loader.Dockerfile.{
  Files, Directives, HostInfo, PortInfo, Publish, Loaded, is_launched, builder, host_names,
  publish_stages, publish, process_dockerfile, check_option_hosts, check_port_map, publish_ports,
  choose_dockerfile, chosen_hosts, builder_host, advance,
}
use cmgr.Loader.Dockerfile.Declared.{CanPublish, check_port_map-IsRecorded}
use cmgr.Loader.Dockerfile.Ports.{
  publish_ports-IsRecorded, publish_ports-lookup, publish_ports-ArePublished, ArePublished,
}
use cmgr.Loader.Dockerfile.Stages.{
  stage_of, AreOrdered, ArePublishedInOrder, advance-stage_of, advance-advance, advance_zero,
}

-- Options for the challenge itself, or for a host that is launched and does not only build.
abbrev pub HasHost : List HostInfo → Text → Type 0
HasHost hosts h = (is_empty h ≡ true) ⊎ ((is_launched hosts h ≡ true) × (text_eq h builder ≡ false))

-- No endpoint is published under two names.
abbrev pub HasOneName : List (Text × PortInfo) → Type 0
HasOneName table =
    (n m : Text) (e : PortInfo) → lookup n table ≡ some e → lookup m table ≡ some e → n ≡ m

pub record IsSound (ports : List (Text × PortInfo)) (options : List Text) (l : Loaded)
    : Type 0 where
  pub valid : (n : Text) (e : PortInfo) → lookup n l.port_map ≡ some e → CanPublish l.hosts e
  pub separate : HasOneName l.port_map
  pub kept : (n : Text) (e : PortInfo) → lookup n ports ≡ some e → lookup n l.port_map ≡ some e
  pub options_apply : All (HasHost l.hosts) options

-- The port of a comment, at the host that has the name of its stage.
abbrev pub HasPort : HostInfo → List (ℕ × HostInfo) → List (Text × PortInfo) → Publish → Type 0
HasPort first others table p =
    (n : ℤ) × (parse_int p.digits ≡ some n)
    × (lookup p.name table
        ≡ some (record { host = (stage_of p.start first others).name; port = n }))

check_option_hosts-HasHost :
    (hosts : List HostInfo) (options : List Text)
    → check_option_hosts hosts options ≡ ok tt
    → All (HasHost hosts) options
check_option_hosts-HasHost hosts [] h = tt
check_option_hosts-HasHost hosts (o ∷ os) h = elim (Bool-cases (is_empty o)) [
  | inl e ↦ (inl e, check_option_hosts-HasHost hosts os (ground (arith, h, e)))
  | inr e ↦ (
    inr (ground (arith, h, e), ground (arith, h, e)),
    check_option_hosts-HasHost hosts os (ground (arith, h, e)),
  )
]

-- The steps of a run that is accepted.
record IsRun (first : ℕ × HostInfo) (others : List (ℕ × HostInfo)) (d : Directives)
    (ports : List (Text × PortInfo)) (options : List Text) (l : Loaded) : Type 0 where
  pub names : List (PortInfo × Text)
  pub checked : check_port_map l.hosts [] ports ≡ ok names
  pub published : publish_ports l.hosts (first.1, others) names ports d.published ≡ ok l.port_map
  pub optional : check_option_hosts l.hosts options ≡ ok tt

publish-IsRun :
    (first : ℕ × HostInfo) (others : List (ℕ × HostInfo)) (d : Directives)
    (ports : List (Text × PortInfo)) (options : List Text) {l : Loaded}
    → publish first others d ports options ≡ ok l
    → IsRun first others d ports options l
unfolding publish
publish-IsRun first others d ports options h =
    elim (Result-cases (chosen_hosts (first.1) (first ∷ others) d.launch)) [
      | inr (e, a) ↦ absurd (ground (arith, h, a))
      | inl (chosen, a) ↦
          let hosts : List HostInfo =
            if any (λ s. text_eq s.target builder) d.stages
            then builder_host ∷ chosen
            else chosen in
          elim (Result-cases (check_port_map hosts [] ports)) [
            | inr (e, b) ↦ absurd (ground (arith, h, a, b))
            | inl (names, b) ↦
                elim (Result-cases
                  (publish_ports hosts (first.1, others) names ports d.published)) [
                    | inr (e, c) ↦ absurd (ground (arith, h, a, b, c))
                    | inl (table, c) ↦ elim (Result-cases (check_option_hosts hosts options)) [
                      | inr (e, k) ↦ absurd (ground (arith, h, a, b, c, k))
                      | inl (u, k) ↦ record {
                        names = names;
                        checked = ground (arith, h, a, b, c, k);
                        published = ground (arith, h, a, b, c, k);
                        optional = ground (arith, h, a, b, c, k);
                      }
                    ]
                  ]
          ]
    ]

module _ (first : ℕ × HostInfo) (others : List (ℕ × HostInfo)) (d : Directives)
    (ports : List (Text × PortInfo)) (options : List Text) {l : Loaded}
    (h : publish first others d ports options ≡ ok l) where
  publish-IsSound : IsSound ports options l
  publish-IsSound =
      let r = publish-IsRun first others d ports options h in
      let (names', recorded) =
        publish_ports-IsRecorded l.hosts (first.1, others) r.names ports d.published
          (check_port_map-IsRecorded l.hosts [] ports r.checked) r.published in
      record {
        valid = recorded.each;
        separate = λ n m e p q. ground (arith, recorded.named n e p, recorded.named m e q);
        kept = publish_ports-lookup l.hosts (first.1, others) r.names ports d.published r.published;
        options_apply = check_option_hosts-HasHost l.hosts options r.optional;
      }

  publish-ArePublished : ArePublished (first.1, others) l.port_map d.published
  publish-ArePublished =
      let r = publish-IsRun first others d ports options h in
      publish_ports-ArePublished l.hosts (first.1, others) r.names ports d.published r.published

-- The loop's cursor names the stage of each comment.
ArePublished-HasPort :
    (first : HostInfo) (others : List (ℕ × HostInfo)) (n : ℕ) (table : List (Text × PortInfo))
    (ps : List Publish)
    → AreOrdered 0 others
    → ArePublishedInOrder n ps
    → ArePublished (advance n first others) table ps
    → All (HasPort first others table) ps
ArePublished-HasPort first others n table [] o q a = tt
ArePublished-HasPort first others n table (p ∷ ps) o (le, q) ((z, parsed, at), more) =
    let same = advance-advance n p.start first others le in
    (
      (
        z,
        parsed,
        at
            ∙ ap (λ (g : HostInfo). some (record { host = g.name; port = z }))
                (ap (λ c. c.0) same ∙ advance-stage_of p.start 0 first others o),
      ),
      ArePublished-HasPort first others p.start table ps o q
          (subst (λ c. ArePublished c table ps) same more),
    )

publish_stages-IsSound :
    (stages : List (ℕ × HostInfo)) (d : Directives) (ports : List (Text × PortInfo))
    (options : List Text) {l : Loaded}
    → publish_stages stages d ports options ≡ ok l
    → IsSound ports options l
publish_stages-IsSound [] d ports options h = cc
publish_stages-IsSound (first ∷ others) d ports options h =
    publish-IsSound first others d ports options h

-- Where the loader accepts a challenge, every port of its table has a valid number, is served by a host
-- that is launched and does not only build, and has one name; the ports of the challenge file are in the
-- table, and the options are for hosts that are launched.
pub process_dockerfile-IsSound :
    (scan : Text → Directives) (embedded : Text → Option Text) (files : Files) (kind : Text)
    (ports : List (Text × PortInfo)) (options : List Text) {l : Loaded}
    → process_dockerfile scan embedded files kind ports options ≡ ok l
    → IsSound ports options l
unfolding process_dockerfile
process_dockerfile-IsSound scan embedded files kind ports options h =
    elim (Result-cases (choose_dockerfile embedded files kind)) [
      | inr (e, a) ↦ cc (rw a at h)
      | inl (content, a) ↦
          publish_stages-IsSound (host_names (scan content).stages) (scan content) ports options
            (rw a at h)
    ]

-- Every PUBLISH comment of an accepted Dockerfile has its port in the table, at the host of the last
-- stage that starts before the comment, or of the first stage, where the matches come in order.
pub process_dockerfile-HasPort :
    (scan : Text → Directives) (embedded : Text → Option Text) (files : Files) (kind : Text)
    (ports : List (Text × PortInfo)) (options : List Text) {content : Text} {first : ℕ × HostInfo}
    {others : List (ℕ × HostInfo)} {l : Loaded}
    → choose_dockerfile embedded files kind ≡ ok content
    → host_names (scan content).stages ≡ first ∷ others
    → AreOrdered 0 others
    → ArePublishedInOrder 0 (scan content).published
    → process_dockerfile scan embedded files kind ports options ≡ ok l
    → All (HasPort (first.1) others l.port_map) (scan content).published
unfolding process_dockerfile
process_dockerfile-HasPort scan embedded files kind ports options {content} {first} {others} {l}
      chosen stages o q h =
    let run : publish first others (scan content) ports options ≡ ok l =
      (rw (chosen, stages) at h) in
    ArePublished-HasPort (first.1) others 0 l.port_map (scan content).published o q (
      subst (λ c. ArePublished c l.port_map (scan content).published)
        (sym (advance_zero (first.1) others))
        (publish-ArePublished first others (scan content) ports options run))
