-- ===== src/Digest/Examples.antt =====
-- A challenge with a Dockerfile, a link to it, and a solver that is not hashed.
use cmgr.Common.{◌≡◌, refl, arith, [], ◌∷◌, All, Text, codes, text_eq, if◌then◌else◌, decimal}
use cmgr.Digest.{
  Entry, symlink, regular, other, Tree, nothing, node, visited, checksum_stream, checksum_ignore,
}
use cmgr.Digest.Entries.{Shape, link, file, neither, IsListed, checksum_stream-inj}

-- The first letter of a mode.
abbrev first_letter : Text → Shape
first_letter [] = neither
first_letter (c ∷ mode) =
    if text_eq (c ∷ []) (codes "L")
    then link
    else if text_eq (c ∷ []) (codes "-")
    then file
    else neither

abbrev dockerfile : Entry
dockerfile = record {
  path = codes "Dockerfile";
  mode = codes "-rw-r--r--";
  size = 4;
  kind = regular (codes "FROM");
}

abbrev alias : Entry
alias = record {
  path = codes "d";
  mode = codes "Lrwxrwxrwx";
  size = 10;
  kind = symlink (codes "Dockerfile");
}

abbrev solver : Entry
solver = record { path = codes "solver"; mode = codes "drwxr-xr-x"; size = 64; kind = other }

abbrev solved : Tree
solved = node (codes "Dockerfile") dockerfile nothing (
    node (codes "d") alias nothing
      (node (codes "solver") solver (node (codes "d") alias nothing nothing) nothing))

abbrev unsolved : Tree
unsolved = node (codes "Dockerfile") dockerfile nothing (node (codes "d") alias nothing nothing)

dockerfile-IsListed : IsListed first_letter dockerfile
unfolding decimal
dockerfile-IsListed = record {
  path_fits = omega arith;
  mode_fits = omega arith;
  digits_fit = omega arith;
  shown = refl;
  whole = refl;
}

alias-IsListed : IsListed first_letter alias
unfolding decimal
alias-IsListed = record {
  path_fits = omega arith;
  mode_fits = omega arith;
  digits_fit = omega arith;
  shown = refl;
  whole = omega arith;
}

solved-IsListed : All (IsListed first_letter) (visited solved)
unfolding visited checksum_ignore
solved-IsListed = (dockerfile-IsListed, (alias-IsListed, tt))

unsolved-IsListed : All (IsListed first_letter) (visited unsolved)
unfolding visited checksum_ignore
unsolved-IsListed = (dockerfile-IsListed, (alias-IsListed, tt))

same_bytes : checksum_stream solved ≡ checksum_stream unsolved
unfolding checksum_stream checksum_ignore
same_bytes = refl

checksum_stream-inj_example : visited solved ≡ visited unsolved
checksum_stream-inj_example =
    checksum_stream-inj first_letter solved unsolved solved-IsListed unsolved-IsListed same_bytes
