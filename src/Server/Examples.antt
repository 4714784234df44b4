-- ===== src/Server/Examples.antt =====
-- Requests of a client.
use cmgr.Common.{◌≡◌, refl, some, [], ◌∷◌, codes}
use cmgr.Server.{collect_challenge, challenge_of_path}
use cmgr.Server.Routes.{challenge_of_path-join}

challenge_of_path-join_example :
    challenge_of_path (codes "/challenges/web/easy/one") ≡ some (codes "web/easy/one")
challenge_of_path-join_example =
    challenge_of_path-join (codes "web") (codes "easy" ∷ codes "one" ∷ []) (refl, refl)
      ((refl, refl), ((refl, refl), tt))

-- An identifier with a part `challenges` is cut short.
cut_short : challenge_of_path (codes "/challenges/challenges/one") ≡ some (codes "one")
unfolding challenge_of_path collect_challenge
cut_short = refl
