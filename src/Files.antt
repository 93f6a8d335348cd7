-- ===== src/Files.antt =====
-- crates/nixdex-core/src/files.rs: the kinds of file nodes, and the entries of a listing with their
-- encoding as a line of the front-coded stream. Text is a list of bytes; a `u64` is a number, whose
-- bound the theorems state.
pub mod Tree
pub mod Flatten
pub mod Directory
pub mod Ls
pub mod LsSafe
pub mod Meta
pub mod RoundTrip
pub mod Errors
mod Tests
use mathlib.Core.Option
use nixdex.Prelude.{
  ℕ, Bool, true, false, not, ◌||◌, Option, none, some, List, [], ◌∷◌, ◌++◌, ◌==◌, if◌then◌else◌,
  Result, ok, err,
}
use nixdex.Prelude.Bytes.{Bytes, codes, bytes_eq}
use nixdex.Prelude.Decimal.{decimal, parse_u64}
use nixdex.Prelude.Split.{split_once}
use nixdex.Frcode
use nixdex.Frcode.{Encoder, write_meta, write_path}
use nixdex.Frcode.Package.{and_then}

pub data FileType : Type 0 where
  regular : Bool → FileType
  directory : FileType
  symlink : FileType

-- `to_possible_value`: the letter that stands for a type on the command line.
unfoldable pub to_possible_value : FileType → Bytes
to_possible_value (regular false) = codes "r"
to_possible_value (regular true) = codes "x"
to_possible_value directory = codes "d"
to_possible_value symlink = codes "s"

-- `value_variants`
unfoldable pub value_variants : List FileType
value_variants = regular false ∷ regular true ∷ directory ∷ symlink ∷ []

-- `from_str`; its error is one fixed message.
unfoldable pub from_str : Bytes → Option FileType
from_str s =
    if bytes_eq s (codes "r")
    then some (regular false)
    else if bytes_eq s (codes "x")
    then some (regular true)
    else if bytes_eq s (codes "d")
    then some directory
    else if bytes_eq s (codes "s")
    then some symlink
    else none

unfoldable pub all_file_types : List FileType
all_file_types = regular true ∷ regular false ∷ directory ∷ symlink ∷ []

pub data FileNode {ℓ} (T : Type ℓ) : Type ℓ where
  regular : ℕ → Bool → FileNode T
  symlink : Bytes → FileNode T
  directory : ℕ → T → FileNode T

module _ {ℓ} {T : Type ℓ} where
  unfoldable pub split_contents : FileNode T → FileNode (Unit {0}) × Option T
  split_contents (FileNode.regular size executable) = (FileNode.regular size executable, none)
  split_contents (FileNode.symlink target) = (FileNode.symlink target, none)
  split_contents (FileNode.directory size contents) = (FileNode.directory size tt, some contents)

  unfoldable pub get_type : FileNode T → FileType
  get_type (FileNode.regular size executable) = FileType.regular executable
  get_type (FileNode.symlink target) = FileType.symlink
  get_type (FileNode.directory size contents) = FileType.directory

  unfoldable pub is_executable : FileNode T → Bool
  is_executable (FileNode.regular size true) = true
  is_executable _ = false

  unfoldable pub size : FileNode T → ℕ
  size (FileNode.regular n executable) = n
  size (FileNode.directory n contents) = n
  size (FileNode.symlink target) = 0

pub record FileTreeEntry : Type 0 where
  pub path : Bytes
  pub node : FileNode (Unit {0})

-- `encode_meta`: one or two writes of metadata.
unfoldable pub encode_meta :
    FileNode (Unit {0}) → Encoder → Encoder × Result (Unit {0}) Frcode.Error
encode_meta (FileNode.regular size executable) e =
    write_meta (decimal size ++ (if executable then codes "x" else codes "r")) e
encode_meta (FileNode.symlink target) e = and_then (write_meta target e) (write_meta (codes "s"))
encode_meta (FileNode.directory size contents) e = write_meta (decimal size ++ codes "d") e

-- `buf.split_last()`
pub split_last : Bytes → Option (ℕ × Bytes)
split_last [] = none
split_last (b ∷ bs) = elim (split_last bs) [
  | none ↦ some (b, [])
  | some (kind, rest) ↦ some (kind, b ∷ rest)
]

-- `match *kind`. The parse of the size fails on any byte that is no digit, so also where
-- `str::from_utf8` fails.
unfoldable pub decode_kind : ℕ → Bytes → Option (FileNode (Unit {0}))
decode_kind kind rest =
    if kind == b'x' || kind == b'r'
    then Option.map (λ n. FileNode.regular n (kind == b'x')) (parse_u64 rest)
    else if kind == b's'
    then some (FileNode.symlink rest)
    else if kind == b'd'
    then Option.map (λ n. FileNode.directory n tt) (parse_u64 rest)
    else none

unfoldable pub decode_meta : Bytes → Option (FileNode (Unit {0}))
decode_meta buf = elim (split_last buf) [ none ↦ none | some (kind, rest) ↦ decode_kind kind rest ]

pub forbidden : ℕ → Bool
forbidden b = b == 0 || b == b'\n'

pub any_forbidden : Bytes → Bool
unfolding forbidden
any_forbidden [] = false
any_forbidden (b ∷ bs) = forbidden b || any_forbidden bs

pub target_forbidden : FileNode (Unit {0}) → Bool
unfolding any_forbidden
target_forbidden (FileNode.symlink target) = any_forbidden target
target_forbidden _ = false

unfoldable pub is_encodable : FileTreeEntry → Bool
unfolding any_forbidden target_forbidden
is_encodable entry =
    if any_forbidden entry.path then false else if target_forbidden entry.node then false else true

unfoldable pub encode : FileTreeEntry → Encoder → Encoder × Result (Unit {0}) Frcode.Error
encode entry e = and_then (encode_meta entry.node e) (write_path entry.path)

-- The two reasons of `crate::Error::Parse` that can occur here.
pub data DecodeError : Type 0 where
  missing_separator invalid_metadata : DecodeError

decode_parts : Option (FileNode (Unit {0})) → Bytes → Result FileTreeEntry DecodeError
decode_parts none path = err invalid_metadata
decode_parts (some node) path = ok (record { path = path; node = node })

unfoldable pub decode : Bytes → Result FileTreeEntry DecodeError
unfolding decode_parts
decode buf = elim (split_once 0 buf) [
  | none ↦ err missing_separator
  | some (node_bytes, path) ↦ decode_parts (decode_meta node_bytes) path
]
