-- ===== src/Files/RoundTrip.antt =====
-- An entry through the encoder and back, crates/nixdex-core/src/files.rs and frcode.rs.
use nixdex.Prelude.{ℕ, ◌≡◌, ◌++◌, ◌∷◌, true, some, ok, arith, ◌∙◌, drop}
use nixdex.Prelude.Bytes.{Bytes, contains-drop}
use nixdex.Frcode.{Encoder}
use nixdex.Frcode.Bounds.{IsValid}
use nixdex.Frcode.Format.{read_line}
use nixdex.Frcode.Line.{shared_loop_prefix, line_bytes, read_line-line_bytes, write_line-after_line}
use nixdex.Frcode.Lines.{Follows, prefix_of_last}
use nixdex.Files.{FileTreeEntry, is_encodable, encode, decode}
use nixdex.Files.Meta.{
  IsSized, meta_bytes, is_encodable-IsPlain, encode-write_line, decode-meta_bytes,
}

-- For an entry that `is_encodable` accepts, its size below 2^64, and a valid encoder whose last path is
-- the reader's or empty: encoding the entry succeeds, appends bytes to the writer, and makes the
-- entry's path the last one. The format's reader takes from these bytes, whatever follows them, one
-- line, of some metadata and the entry's path, and leaves off with the shared length that the
-- encoder recorded. The metadata, a NUL and the path decode to the entry.
pub decode-encode :
    (entry : FileTreeEntry) (e : Encoder) (last rest : Bytes)
    → IsValid e
    → Follows last e
    → IsSized entry.node
    → is_encodable entry ≡ true
    → (out : Bytes) × (meta : Bytes) × (shared : ℕ) × (encode entry e
        ≡ (record e { writer = e.writer ++ out; last = entry.path; shared_len = shared }, ok tt))
      × (read_line last e.shared_len (out ++ rest) ≡ some ((meta, entry.path), shared, rest))
      × (decode (meta ++ (0 ∷ entry.path)) ≡ ok entry)
decode-encode entry e last rest v f sized h =
    let (hm, hp) = (is_encodable-IsPlain entry).0 h in
    let meta = meta_bytes entry.node in
    let (k, count, lt, in_last, in_path, same) =
      shared_loop_prefix e.last entry.path 0 (omega arith) in
    let (in_last', rebuilds) = prefix_of_last e last entry.path k f in_last same in
    let s = v.small in
    (
      line_bytes meta e.shared_len entry.path k (drop k entry.path),
      meta,
      k,
      encode-write_line entry e h
          ∙ write_line-after_line meta entry.path e k hm hp (omega (arith, count)) (omega arith)
              in_path,
      read_line-line_bytes last meta entry.path (drop k entry.path) e.shared_len k rest hm.0
          (contains-drop b'\n' k entry.path hp.1) s (omega arith) in_last' rebuilds,
      decode-meta_bytes entry sized hm.0,
    )
