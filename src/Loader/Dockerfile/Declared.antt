-- ===== src/Loader/Dockerfile/Declared.antt =====
-- The loop over the ports that the challenge file declares: what a table of published ports satisfies.
use cmgr.Common.{
  true, false, not, ◌||◌, Option, none, some, List, [], ◌∷◌, ◌≡◌, refl, ap, arith, Text, text_eq,
  text_eq_iff, lookup, int_eq_iff, ok, Bool-cases, inl, inr,
}
use cmgr.Loader.Dockerfile.{
  HostInfo, PortInfo, is_port, is_launched, endpoint_eq, name_of, check_port_map, builder, is_named,
}

-- A port that can be published: its number, and its host, which is launched and does not only build.
pub record CanPublish (hosts : List HostInfo) (e : PortInfo) : Type 0 where
  pub valid : is_port e.port ≡ true
  pub launched : is_launched hosts e.host ≡ true
  pub serves : text_eq e.host builder ≡ false

-- Every port can be published, and its endpoint has its name.
pub record IsRecorded (hosts : List HostInfo) (names : List (PortInfo × Text))
    (ports : List (Text × PortInfo)) : Type 0 where
  pub each : (n : Text) (e : PortInfo) → lookup n ports ≡ some e → CanPublish hosts e
  pub named : (n : Text) (e : PortInfo) → lookup n ports ≡ some e → name_of e names ≡ some n

endpoint_eq-eq : (d e : PortInfo) → endpoint_eq d e ≡ true → d ≡ e
endpoint_eq-eq d e h = ground (arith, h, text_eq_iff d.host e.host, int_eq_iff d.port e.port)

endpoint_eq_refl : (e : PortInfo) → endpoint_eq e e ≡ true
endpoint_eq_refl e = ground (arith, text_eq_iff e.host e.host, int_eq_iff e.port e.port)

pub is_named-none : (o : Option Text) → is_named o ≡ false → o ≡ none
is_named-none none h = refl
is_named-none (some t) h = cc

-- A new endpoint takes the name from no other.
pub name_of-cons :
    (e d : PortInfo) (n m : Text) (names : List (PortInfo × Text))
    → name_of d names ≡ none
    → name_of e names ≡ some n
    → name_of e ((d, m) ∷ names) ≡ some n
name_of-cons e d n m names new old = elim (Bool-cases (endpoint_eq d e)) [
  | inl same ↦ cc (ap (λ x. name_of x names) (endpoint_eq-eq d e same))
  | inr other ↦ rw other old
]

pub name_of_head :
    (e : PortInfo) (n : Text) (names : List (PortInfo × Text)) → name_of e ((e, n) ∷ names) ≡ some n
name_of_head e n names = rw (endpoint_eq_refl e) refl

module _ (hosts : List HostInfo) where
  check_port_map-cons :
      (names : List (PortInfo × Text)) (n : Text) (e : PortInfo) (ports : List (Text × PortInfo))
      {names' : List (PortInfo × Text)}
      → check_port_map hosts names ((n, e) ∷ ports) ≡ ok names'
      → CanPublish hosts e
        × (name_of e names ≡ none)
        × (check_port_map hosts ((e, n) ∷ names) ports ≡ ok names')
  unfolding check_port_map
  check_port_map-cons names n e ports h = elim (Bool-cases (is_port e.port)) [
    | inr a ↦ absurd (ground (arith, h, a))
    | inl a ↦ elim (Bool-cases (not (is_launched hosts e.host) || text_eq e.host builder)) [
      | inl b ↦ absurd (ground (arith, h, a, b))
      | inr b ↦ elim (Bool-cases (is_named (name_of e names))) [
        | inl c ↦ absurd (ground (arith, h, a, b, c))
        | inr c ↦ (ground (arith, a, b), is_named-none _ c, ground (arith, h, a, b, c))
      ]
    ]
  ]

  check_port_map-Kept :
      (names : List (PortInfo × Text)) (ports : List (Text × PortInfo))
      {names' : List (PortInfo × Text)}
      → check_port_map hosts names ports ≡ ok names'
      → (e : PortInfo) (n : Text) → name_of e names ≡ some n
      → name_of e names' ≡ some n
  check_port_map-Kept names [] h e n old = unfold check_port_map in cc
  check_port_map-Kept names ((m, d) ∷ ports) h e n old =
      let (_, new, rest) = check_port_map-cons names m d ports h in
      check_port_map-Kept ((d, m) ∷ names) ports rest e n (name_of-cons e d n m names new old)

  pub check_port_map-IsRecorded :
      (names : List (PortInfo × Text)) (ports : List (Text × PortInfo))
      {names' : List (PortInfo × Text)}
      → check_port_map hosts names ports ≡ ok names'
      → IsRecorded hosts names' ports
  check_port_map-IsRecorded names [] h = record { each = λ n e l. cc; named = λ n e l. cc }
  check_port_map-IsRecorded names ((m, d) ∷ ports) {names'} h =
      let (can, _, rest) = check_port_map-cons names m d ports h in
      let more = check_port_map-IsRecorded ((d, m) ∷ names) ports rest in
      record {
        each = λ n e l. elim (Bool-cases (text_eq m n)) [
          | inl same ↦ ground (arith, l, same, can)
          | inr other ↦ more.each n e (rw other at l)
        ];
        named = λ n e l. elim (Bool-cases (text_eq m n)) [
          | inl same ↦ ground (
            arith,
            l,
            same,
            text_eq_iff m n,
            check_port_map-Kept ((d, m) ∷ names) ports rest d m (name_of_head d m names),
          )
          | inr other ↦ more.named n e (rw other at l)
        ];
      }
