-- ===== src/Changes/Examples.antt =====
-- A directory with a changed challenge and a new one, and a database with the old ones.
use cmgr.Common.{◌≡◌, refl, true, some, List, [], ◌∷◌, Text, codes}
use cmgr.Changes.{
  Challenge, Found, Answers, seccomp_policies_equal, safe_to_refresh, verdict, sort_changes,
  detect_changes,
}
use cmgr.Changes.Sorted.{IsSorted, sort_changes-IsSorted}

abbrev challenge : Text → Text → Challenge
challenge id digest = record {
  id = id;
  path = codes "/c/a";
  kind = codes "flask";
  source_digest = digest;
  metadata_digest = codes "m";
  solve_script = true;
  policies = [];
}

abbrev found : Found
found =
    (codes "a", challenge (codes "a") (codes "2"))
    ∷ (codes "new", challenge (codes "new") (codes "1"))
    ∷ []

abbrev db : List Challenge
db = challenge (codes "a") (codes "1") ∷ challenge (codes "old") (codes "1") ∷ []

abbrev answers : Answers
answers = record {
  directory = some (codes "/c");
  inventory = λ d. (found, []);
  listed = some db;
  stored = λ id. some (challenge id (codes "1"));
  inside = λ p d. true;
  challenge_dir = codes "/c";
  same_options = λ x y. true;
}

detected : detect_changes answers ≡ record {
  added = challenge (codes "new") (codes "1") ∷ [];
  refreshed = [];
  updated = challenge (codes "a") (codes "2") ∷ [];
  removed = challenge (codes "old") (codes "1") ∷ [];
  unmodified = [];
  errors = [];
}
unfolding detect_changes sort_changes verdict seccomp_policies_equal safe_to_refresh
detected = refl

sort_changes-IsSorted_example :
    IsSorted answers (codes "/c") [] found db (sort_changes answers (codes "/c") [] found db)
sort_changes-IsSorted_example =
    sort_changes-IsSorted answers (codes "/c") [] found db ((refl, tt), (tt, tt))
