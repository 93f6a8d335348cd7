-- ===== src/Files/Errors.antt =====
-- What encoding an entry does when it fails and when not, crates/nixdex-core/src/files.rs.
use nixdex.Prelude.{
  ◌≡◌, ◌⊎◌, inl, inr, refl, true, false, [], ◌∷◌, ◌++◌, Result, ok, err, arith, ap, ◌∙◌, Bool-cases,
}
use nixdex.Prelude.Bytes.{Bytes, codes, contains, contains-append}
use nixdex.Frcode.{Encoder, Error, forbidden_byte, validate_bytes, write_meta}
use nixdex.Frcode.Line.{IsPlain}
use nixdex.Frcode.Bounds.{IsValid, write_path-IsValid}
use nixdex.Frcode.Package.{and_then}
use nixdex.Files.{FileNode, FileTreeEntry, encode_meta, is_encodable, encode}
use nixdex.Files.Meta.{meta_bytes, is_encodable-IsPlain, encode_meta-write_meta}

IsPlain-or_not : (bytes : Bytes) → IsPlain bytes ⊎ (¬ IsPlain bytes)
IsPlain-or_not bytes = elim (Bool-cases (contains 0 bytes)) [
  | inl nul ↦ inr (λ h. ground (arith, nul, h.0))
  | inr no_nul ↦ elim (Bool-cases (contains b'\n' bytes)) [
    | inl newline ↦ inr (λ h. ground (arith, newline, h.1))
    | inr no_newline ↦ inl (no_nul, no_newline)
  ]
]

-- The encoder with `bytes` appended to its writer.
abbrev pub appended : Bytes → Encoder → Encoder
appended bytes e = record e { writer = e.writer ++ bytes }

write_meta-appended :
    (meta : Bytes) (e : Encoder) → IsPlain meta → write_meta meta e ≡ (appended meta e, ok tt)
unfolding write_meta validate_bytes
write_meta-appended meta e h = ground (arith, h.0, h.1)

write_meta-err :
    (meta : Bytes) (e : Encoder) → ¬ IsPlain meta → write_meta meta e ≡ (e, err forbidden_byte)
unfolding write_meta validate_bytes
write_meta-err meta e h = ground (arith, h)

encode_meta-appended :
    (node : FileNode (Unit {0})) (e : Encoder)
    → IsPlain (meta_bytes node)
    → encode_meta node e ≡ (appended (meta_bytes node) e, ok tt)
encode_meta-appended node e h =
    encode_meta-write_meta node e h ∙ write_meta-appended (meta_bytes node) e h

IsPlain-tag : IsPlain (codes "s")
unfolding contains
IsPlain-tag = (refl, refl)

IsPlain-target : (target : Bytes) → IsPlain target → IsPlain (target ++ (b's' ∷ []))
IsPlain-target target h = ground (
  arith,
  contains-append 0 target (b's' ∷ []),
  contains-append b'\n' target (b's' ∷ []),
  IsPlain-tag,
)

encode_meta-err :
    (node : FileNode (Unit {0})) (e : Encoder)
    → ¬ IsPlain (meta_bytes node)
    → encode_meta node e ≡ (e, err forbidden_byte)
unfolding encode_meta meta_bytes
encode_meta-err (FileNode.regular size true) e h = write_meta-err _ e h
encode_meta-err (FileNode.regular size false) e h = write_meta-err _ e h
encode_meta-err (FileNode.directory size contents) e h = write_meta-err _ e h
encode_meta-err (FileNode.symlink target) e h =
    ap (λ r. and_then r (write_meta (codes "s")))
      (write_meta-err target e (λ plain. h (IsPlain-target target plain)))

-- What encoding did: a whole line, or nothing, or the metadata only.
abbrev pub Outcome : FileTreeEntry → Encoder → Encoder × Result (Unit {0}) Error → Type 0
Outcome entry e (e', result) =
    ((is_encodable entry ≡ true) × (result ≡ ok tt) × (e'.last ≡ entry.path))
    ⊎ ((¬ IsPlain (meta_bytes entry.node)) × (e' ≡ e) × (result ≡ err forbidden_byte))
    ⊎ (IsPlain (meta_bytes entry.node)
        × (¬ IsPlain entry.path)
        × (e' ≡ appended (meta_bytes entry.node) e)
        × (result ≡ err forbidden_byte))

-- For a valid encoder: encoding an entry leaves it valid. An entry that `is_encodable` accepts is
-- encoded, and its path becomes the last one. If the metadata (the size or the target, and the letter)
-- has a NUL or newline, the result is `ForbiddenByte` and the encoder is as before. If only the path
-- has one, the result is `ForbiddenByte`, the metadata stays in the writer, and nothing else changes.
pub encode-IsValid :
    (entry : FileTreeEntry) (e : Encoder)
    → IsValid e
    → IsValid (encode entry e).0 × Outcome entry e (encode entry e)
unfolding encode
encode-IsValid entry e v = elim (IsPlain-or_not (meta_bytes entry.node)) [
  | inr not_plain ↦
      rw (encode_meta-err entry.node e not_plain) (v, inr (inl (not_plain, refl, refl)))
  | inl plain ↦
      let w : IsValid (appended (meta_bytes entry.node) e) = record {
        small = v.small;
        within = v.within;
      } in
      let (w', outcome) = write_path-IsValid entry.path (appended (meta_bytes entry.node) e) w in
      rw (encode_meta-appended entry.node e plain) (elim outcome [
        | inl (plain_path, done, last) ↦
            (w', inl ((is_encodable-IsPlain entry).1 (plain, plain_path), done, last))
        | inr (not_plain, failed) ↦
            (w', inr (inr (plain, not_plain, ap (λ r. r.0) failed, ap (λ r. r.1) failed)))
      ])
]
