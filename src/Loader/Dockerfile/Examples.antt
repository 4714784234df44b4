-- ===== src/Loader/Dockerfile/Examples.antt =====
-- A challenge with a builder and two servers.
use cmgr.Common.{
  ◌≡◌, refl, true, Option, none, some, List, [], ◌∷◌, Text, codes, pos, ok, All, arith, parse_int,
}
use cmgr.Loader.Dockerfile.{
  Directives, Files, HostInfo, PortInfo, Loaded, builder_host, choose_dockerfile, check_port_map,
  advance, publish_ports, publish, process_dockerfile,
}
use cmgr.Loader.Dockerfile.Sound.{
  IsSound, HasPort, process_dockerfile-IsSound, process_dockerfile-HasPort,
}

abbrev web : HostInfo
web = record { name = codes "web"; target = codes "web" }

abbrev last : HostInfo
last = record { name = codes "challenge"; target = [] }

abbrev three_stages : Text → Directives
three_stages content = record {
  stages =
      record { start = 10; target = codes "builder" }
      ∷ record { start = 90; target = codes "web" }
      ∷ record { start = 200; target = [] }
      ∷ [];
  published =
      record { start = 150; digits = codes "80"; name = codes "http" }
      ∷ record { start = 260; digits = codes "4242"; name = codes "socat" }
      ∷ [];
  launch = some (codes "web" ∷ codes "challenge" ∷ []);
}

abbrev none_embedded : Text → Option Text
none_embedded kind = none

abbrev on_disk : Files
on_disk = record { challenge_py = none; has_dockerfile = true; custom = some (codes "FROM a AS b") }

abbrev admin : List (Text × PortInfo)
admin = (codes "admin", record { host = codes "web"; port = pos 8080 }) ∷ []

abbrev three_loaded : Loaded
three_loaded = record {
  hosts = builder_host ∷ web ∷ last ∷ [];
  port_map =
      (codes "admin", record { host = codes "web"; port = pos 8080 })
      ∷ (codes "http", record { host = codes "web"; port = pos 80 })
      ∷ (codes "socat", record { host = codes "challenge"; port = pos 4242 })
      ∷ [];
}

chosen : choose_dockerfile none_embedded on_disk (codes "custom") ≡ ok (codes "FROM a AS b")
unfolding choose_dockerfile
chosen = refl

accepted :
    process_dockerfile three_stages none_embedded on_disk (codes "custom") admin (codes "web" ∷ [])
    ≡ ok three_loaded
unfolding process_dockerfile choose_dockerfile publish check_port_map publish_ports advance
    parse_int
accepted = refl

process_dockerfile-IsSound_example : IsSound admin (codes "web" ∷ []) three_loaded
process_dockerfile-IsSound_example =
    process_dockerfile-IsSound three_stages none_embedded on_disk (codes "custom") admin
      (codes "web" ∷ []) accepted

process_dockerfile-HasPort_example :
    All
      (HasPort builder_host ((90, web) ∷ (200, last) ∷ []) three_loaded.port_map)
      (three_stages []).published
process_dockerfile-HasPort_example =
    process_dockerfile-HasPort three_stages none_embedded on_disk (codes "custom") admin
      (codes "web" ∷ []) chosen refl (omega arith) (omega arith) accepted

-- A stage called challenge, and a last stage without a name, which alone is launched.
abbrev two_challenges : Text → Directives
two_challenges content = record {
  stages =
      record { start = 0; target = codes "challenge" } ∷ record { start = 100; target = [] } ∷ [];
  published = record { start = 50; digits = codes "80"; name = codes "http" } ∷ [];
  launch = none;
}

-- The port of the first stage is taken for one of the last.
same_name :
    process_dockerfile two_challenges none_embedded on_disk (codes "custom") [] []
    ≡ ok (record {
      hosts = last ∷ [];
      port_map = (codes "http", record { host = codes "challenge"; port = pos 80 }) ∷ [];
    })
unfolding process_dockerfile choose_dockerfile publish check_port_map publish_ports advance
    parse_int
same_name = refl
