-- ===== src/Disk/Dir.antt =====
-- The entries of the data directory, found by name.
use blockstore.Prelude.{
  ℕ, ◌≡◌, refl, Option, none, some, List, [], ◌∷◌, arith, if◌then◌else◌, bytes_eq, bytes_eq→eq,
}
use blockstore.Disk.Files.{File, empty_file}

pub data Node : Type 0 where
  file : File → Node
  directory : Node

pub record DirEntry : Type 0 where
  pub name : List ℕ
  pub node : Node

unfoldable pub find_node : List ℕ → List DirEntry → Option Node
find_node name [] = none
find_node name (e ∷ es) = if bytes_eq e.name name then some e.node else find_node name es

-- The contents of a file under a name: of the entry that has the name, or of a new entry.
unfoldable pub put_file : List ℕ → File → List DirEntry → List DirEntry
put_file name f [] = record { name = name; node = file f } ∷ []
put_file name f (e ∷ es) =
    if bytes_eq e.name name
    then record { name = name; node = file f } ∷ es
    else e ∷ put_file name f es

-- Behind an open handle there is a file.
abbrev pub file_or_empty : Option Node → File
file_or_empty (some (file f)) = f
file_or_empty _ = empty_file

-- `put_file` sets the file of that name and leaves every other name alone.
pub find_node-put_file :
    (name other : List ℕ) (f : File) (es : List DirEntry)
    → find_node other (put_file name f es)
      ≡ (if bytes_eq name other then some (file f) else find_node other es)
unfolding find_node put_file
find_node-put_file name other f [] = refl
find_node-put_file name other f (e ∷ es) =
    ground
      (arith, bytes_eq→eq e.name name, bytes_eq→eq name other, find_node-put_file name other f es)
