-- ===== src/Digest.antt =====
-- The bytes that cmgr/filesystem.go hashes: the frames of writeHashFrame, the metadata of a challenge, and
-- the walk of challengeChecksum through its directory. The hash functions themselves are not modelled.
pub mod Frames
pub mod Entries
mod Examples
use cmgr.Common.{
  ℕ, zero, suc, ◌/◌, ◌%◌, ◌^◌, Bool, true, false, not, ◌&&◌, ◌||◌, List, [], ◌∷◌, ◌++◌,
  if◌then◌else◌, ◌==◌, length, Text, codes, text_eq, decimal,
}

-- An unsigned number as so many bytes, the highest first.
pub big_endian : ℕ → ℕ → Text
big_endian zero n = []
big_endian (suc k) n = big_endian k (n / 256) ++ (n % 256) ∷ []

-- The lengths are converted to uint32 and uint64.
pub hash_frame : Text → Text → Text
hash_frame label content =
    big_endian 4 (length label % 2 ^ 32)
    ++ (label ++ (big_endian 8 (length content % 2 ^ 64) ++ content))

-- The stream of the SHA-256 digest of metadataHashes.
pub metadata_stream : Text → Text → Text
metadata_stream content path =
    hash_frame (codes "metadata") content ++ hash_frame (codes "path") path

abbrev starts_with_dot : Text → Bool
starts_with_dot [] = false
starts_with_dot (c ∷ name) = c == 46

-- Names are not empty.
pub checksum_ignore : Text → Bool
checksum_ignore name =
    starts_with_dot name && not (text_eq name (codes ".dockerignore"))
    || text_eq name (codes "README")
    || text_eq name (codes "README.md")
    || text_eq name (codes "problem.json")
    || text_eq name (codes "problem.md")
    || text_eq name (codes "solver")
    || text_eq name (codes "cmgr.db")

pub context_ignore : Text → Bool
context_ignore name =
    starts_with_dot name && not (text_eq name (codes ".dockerignore"))
    || text_eq name (codes "README")
    || text_eq name (codes "README.md")
    || text_eq name (codes "problem.md")
    || text_eq name (codes "solver")
    || text_eq name (codes "cmgr.db")

pub data Kind : Type 0 where
  symlink : Text → Kind
  regular : Text → Kind
  other : Kind

-- What the walk meets: the path relative to the directory, the text of the mode, the size, and what the
-- mode says it is, with the target of a link or the content of a file.
pub record Entry : Type 0 where
  pub path : Text
  pub mode : Text
  pub size : ℕ
  pub kind : Kind

-- What follows the frames of an entry.
abbrev pub tail_stream : ℕ → Kind → Text
tail_stream size (symlink target) = hash_frame (codes "symlink") target
tail_stream size (regular content) = big_endian 8 (size % 2 ^ 64) ++ content
tail_stream size other = []

pub entry_stream : Entry → Text
entry_stream e =
    hash_frame (codes "path") e.path
    ++ (hash_frame (codes "mode") e.mode
        ++ (hash_frame (codes "size") (decimal e.size) ++ tail_stream e.size e.kind))

-- A directory tree, in the order of the walk: an entry with its name, what is in it, and what comes after.
pub data Tree : Type 0 where
  nothing : Tree
  node : (name : Text) (entry : Entry) (inside after : Tree) → Tree

-- The entries that are hashed; an ignored directory is skipped with all that is in it.
pub visited : Tree → List Entry
visited nothing = []
visited (node name e inside after) =
    let rest = visited after in
    let all_of = e ∷ (visited inside ++ rest) in if checksum_ignore name then rest else all_of

-- The bytes that challengeChecksum writes to the SHA-256 hash.
pub checksum_stream : Tree → Text
checksum_stream nothing = []
checksum_stream (node name e inside after) =
    let rest = checksum_stream after in
    let whole = entry_stream e ++ (checksum_stream inside ++ rest) in
    if checksum_ignore name then rest else whole
