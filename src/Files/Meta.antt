-- ===== src/Files/Meta.antt =====
-- Entries and their lines, crates/nixdex-core/src/files.rs.
use mathlib.Core.List.{append_assoc}
use nixdex.Prelude.{
  ℕ, ◌^◌, ◌<◌, ◌≡◌, ◌↔◌, refl, true, false, ◌||◌, some, [], ◌∷◌, ◌++◌, ok, arith, ap,
}
use nixdex.Prelude.Bytes.{Bytes, codes, bytes_eq_iff, contains, contains-append}
use nixdex.Prelude.Decimal.{decimal, parse_u64-decimal, contains-decimal}
use nixdex.Prelude.Split.{split_once-append}
use nixdex.Frcode.{Encoder, write_meta, write_path}
use nixdex.Frcode.Line.{IsPlain, IsPlain-validates}
use nixdex.Frcode.Package.{and_then, write_line}
use nixdex.Files.{
  FileType, FileNode, FileTreeEntry, to_possible_value, from_str, encode_meta, split_last,
  decode_kind, decode_meta, any_forbidden, is_encodable, encode, decode,
}

-- The letter of every file type is read back as that type, and no other text is read as it.
pub from_str-to_possible_value :
    (s : Bytes) (t : FileType) → (from_str s ≡ some t) ↔ (s ≡ to_possible_value t)
unfolding from_str to_possible_value
from_str-to_possible_value s (FileType.regular false) = ground (
  arith,
  bytes_eq_iff s (codes "r"),
  bytes_eq_iff s (codes "x"),
  bytes_eq_iff s (codes "d"),
  bytes_eq_iff s (codes "s"),
)
from_str-to_possible_value s (FileType.regular true) = ground (
  arith,
  bytes_eq_iff s (codes "r"),
  bytes_eq_iff s (codes "x"),
  bytes_eq_iff s (codes "d"),
  bytes_eq_iff s (codes "s"),
)
from_str-to_possible_value s FileType.directory = ground (
  arith,
  bytes_eq_iff s (codes "r"),
  bytes_eq_iff s (codes "x"),
  bytes_eq_iff s (codes "d"),
  bytes_eq_iff s (codes "s"),
)
from_str-to_possible_value s FileType.symlink = ground (
  arith,
  bytes_eq_iff s (codes "r"),
  bytes_eq_iff s (codes "x"),
  bytes_eq_iff s (codes "d"),
  bytes_eq_iff s (codes "s"),
)

-- The metadata of a node in the format.
unfoldable pub meta_bytes : FileNode (Unit {0}) → Bytes
meta_bytes (FileNode.regular size true) = decimal size ++ (b'x' ∷ [])
meta_bytes (FileNode.regular size false) = decimal size ++ (b'r' ∷ [])
meta_bytes (FileNode.symlink target) = target ++ (b's' ∷ [])
meta_bytes (FileNode.directory size contents) = decimal size ++ (b'd' ∷ [])

-- Sizes are of type u64.
abbrev pub IsSized : FileNode (Unit {0}) → Type 0
IsSized (FileNode.regular size executable) = size < 2 ^ 64
IsSized (FileNode.symlink target) = Unit
IsSized (FileNode.directory size contents) = size < 2 ^ 64

split_last-append : (rest : Bytes) (kind : ℕ) → split_last (rest ++ (kind ∷ [])) ≡ some (kind, rest)
unfolding split_last
split_last-append [] kind = refl
split_last-append (b ∷ rest) kind = rw (split_last-append rest kind)

decode_meta-meta_bytes :
    (node : FileNode (Unit {0})) → IsSized node → decode_meta (meta_bytes node) ≡ some node
unfolding decode_meta decode_kind meta_bytes
decode_meta-meta_bytes (FileNode.regular size true) h =
    ground (arith, split_last-append (decimal size) b'x', parse_u64-decimal size h)
decode_meta-meta_bytes (FileNode.regular size false) h =
    ground (arith, split_last-append (decimal size) b'r', parse_u64-decimal size h)
decode_meta-meta_bytes (FileNode.symlink target) h = ground (arith, split_last-append target b's')
decode_meta-meta_bytes (FileNode.directory size contents) h =
    ground (arith, split_last-append (decimal size) b'd', parse_u64-decimal size h)

pub contains-meta_bytes :
    (c : ℕ) (node : FileNode (Unit {0}))
    → c < 48
    → contains c (meta_bytes node)
      ≡ elim node [ FileNode.symlink target ↦ contains c target | _ ↦ false ]
unfolding meta_bytes contains
contains-meta_bytes c (FileNode.regular size true) h =
    ground (arith, contains-append c (decimal size) (b'x' ∷ []), contains-decimal c size h)
contains-meta_bytes c (FileNode.regular size false) h =
    ground (arith, contains-append c (decimal size) (b'r' ∷ []), contains-decimal c size h)
contains-meta_bytes c (FileNode.symlink target) h =
    ground (arith, contains-append c target (b's' ∷ []))
contains-meta_bytes c (FileNode.directory size u) h =
    ground (arith, contains-append c (decimal size) (b'd' ∷ []), contains-decimal c size h)

pub any_forbidden-contains : (bs : Bytes) → any_forbidden bs ≡ (contains 0 bs || contains b'\n' bs)
unfolding any_forbidden contains
any_forbidden-contains [] = refl
any_forbidden-contains (b ∷ bs) = ground (arith, any_forbidden-contains bs)

-- What `is_encodable` tests: the path and the metadata have neither NUL nor newline.
pub is_encodable-IsPlain :
    (entry : FileTreeEntry)
    → (is_encodable entry ≡ true) ↔ (IsPlain (meta_bytes entry.node) × IsPlain entry.path)
unfolding is_encodable
is_encodable-IsPlain entry = by_node entry.node entry.path
  where
    by_node :
        (node : FileNode (Unit {0})) (path : Bytes)
        → (is_encodable (record { path = path; node = node }) ≡ true)
          ↔ (IsPlain (meta_bytes node) × IsPlain path)
    by_node (FileNode.symlink target) path = ground (
      arith,
      any_forbidden-contains path,
      any_forbidden-contains target,
      contains-meta_bytes 0 (FileNode.symlink target),
      contains-meta_bytes b'\n' (FileNode.symlink target),
    )
    by_node (FileNode.regular n x) path = ground (
      arith,
      any_forbidden-contains path,
      contains-meta_bytes 0 (FileNode.regular n x),
      contains-meta_bytes b'\n' (FileNode.regular n x),
    )
    by_node (FileNode.directory n u) path = ground (
      arith,
      any_forbidden-contains path,
      contains-meta_bytes 0 (FileNode.directory n u),
      contains-meta_bytes b'\n' (FileNode.directory n u),
    )

-- A symlink's metadata is written in two parts, which are plain if the whole is.
pub encode_meta-write_meta :
    (node : FileNode (Unit {0})) (e : Encoder)
    → IsPlain (meta_bytes node)
    → encode_meta node e ≡ write_meta (meta_bytes node) e
unfolding encode_meta meta_bytes
encode_meta-write_meta (FileNode.regular size true) e h = refl
encode_meta-write_meta (FileNode.regular size false) e h = refl
encode_meta-write_meta (FileNode.directory size contents) e h = refl
encode_meta-write_meta (FileNode.symlink target) e h =
    let plain : IsPlain target =
      ground
        (arith, contains-append 0 target (b's' ∷ []), contains-append b'\n' target (b's' ∷ [])) in
    unfold write_meta in
    ground (
      arith,
      IsPlain-validates target plain,
      IsPlain-validates (codes "s") (unfold contains in (refl, refl)),
      IsPlain-validates (target ++ (b's' ∷ [])) h,
      append_assoc e.writer target (b's' ∷ []),
    )

pub encode-write_line :
    (entry : FileTreeEntry) (e : Encoder)
    → is_encodable entry ≡ true
    → encode entry e ≡ write_line (meta_bytes entry.node, entry.path) e
unfolding encode
encode-write_line entry e h =
    ap (λ r. and_then r (write_path entry.path))
      (encode_meta-write_meta entry.node e ((is_encodable-IsPlain entry).0 h).0)

-- A line that is built from an entry's metadata and path decodes to the entry, if a size is below
-- 2^64 and a symlink's target has no NUL.
pub decode-meta_bytes :
    (entry : FileTreeEntry)
    → IsSized entry.node
    → contains 0 (meta_bytes entry.node) ≡ false
    → decode (meta_bytes entry.node ++ (0 ∷ entry.path)) ≡ ok entry
unfolding decode
decode-meta_bytes entry sized plain = ground (
  arith,
  split_once-append 0 (meta_bytes entry.node) entry.path plain,
  decode_meta-meta_bytes entry.node sized,
)
