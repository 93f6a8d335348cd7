-- ===== src/Frcode/Package.antt =====
-- A package's part of a listing, as crates/nixdex-core/src/database.rs writes it: a new encoder, the
-- entries' metadata and paths, and `finish`.
use nixdex.Prelude.{List, [], ◌∷◌, Result, ok, err, ◌>>=◌}
use nixdex.Prelude.Bytes.{Bytes}
use nixdex.Frcode.{Encoder, Error, new, write_meta, write_path, finish}
use nixdex.Frcode.Format.{Line}

-- `?` on a method's result.
abbrev pub and_then :
    Encoder × Result (Unit {0}) Error
    → (Encoder → Encoder × Result (Unit {0}) Error)
    → Encoder × Result (Unit {0}) Error
and_then (e, err x) next = (e, err x)
and_then (e, ok u) next = next e

abbrev pub write_line : Line → Encoder → Encoder × Result (Unit {0}) Error
write_line (meta, path) e = and_then (write_meta meta e) (write_path path)

abbrev pub write_lines : List Line → Encoder → Encoder × Result (Unit {0}) Error
write_lines [] e = (e, ok tt)
write_lines (line ∷ lines) e = and_then (write_line line e) (write_lines lines)

-- The bytes, if every step succeeds.
abbrev pub written : Encoder × Result (Unit {0}) Error → Result Bytes Error
written (e, err x) = err x
written (e, ok u) = ok e.writer

unfoldable pub package_bytes : List Line → Bytes → Bytes → Result Bytes Error
package_bytes lines footer_meta footer_path = do
  e ← new [] footer_meta footer_path
  written (and_then (write_lines lines e) finish)
