-- ===== src/Database/Block.antt =====
-- The block of a package in the listing, crates/nixdex-core/src/database.rs.
use mathlib.Core.Path.{fun_ext}
use nixdex.Prelude.{◌≡◌, refl, true, List, [], ◌∷◌, ◌++◌, Result, ok, err, ◌>>=◌, arith, ap, ◌∙◌}
use nixdex.Prelude.Bytes.{Bytes, codes}
use nixdex.Frcode
use nixdex.Frcode.{Encoder, new, finish}
use nixdex.Frcode.Lines.{ArePlain}
use nixdex.Frcode.Format.{Line}
use nixdex.Frcode.Package.{and_then, write_line, write_lines, written, package_bytes}
use nixdex.Files.{FileTreeEntry, is_encodable, decode}
use nixdex.Files.Meta.{
  meta_bytes, IsSized, encode-write_line, is_encodable-IsPlain, decode-meta_bytes,
}
use nixdex.Database.{kept, encode_all, encode_package}

-- The lines of entries in the format.
abbrev pub lines_of : List FileTreeEntry → List Line
lines_of [] = []
lines_of (entry ∷ entries) = (meta_bytes entry.node, entry.path) ∷ lines_of entries

abbrev pub AreEncodable : List FileTreeEntry → Type 0
AreEncodable [] = Unit
AreEncodable (entry ∷ entries) = (is_encodable entry ≡ true) × AreEncodable entries

abbrev pub AreSized : List FileTreeEntry → Type 0
AreSized [] = Unit
AreSized (entry ∷ entries) = IsSized entry.node × AreSized entries

-- Each line, as a decoded block shows it, decodes to its entry.
abbrev pub Decode : List FileTreeEntry → Type 0
Decode [] = Unit
Decode (entry ∷ entries) =
    (decode (meta_bytes entry.node ++ (0 ∷ entry.path)) ≡ ok entry) × Decode entries

encode_all-write_lines :
    (entries : List FileTreeEntry) (e : Encoder)
    → AreEncodable entries
    → encode_all entries e ≡ write_lines (lines_of entries) e
unfolding encode_all
encode_all-write_lines [] e h = refl
encode_all-write_lines (entry ∷ entries) e (h, hs) =
    ap (λ r. and_then r (encode_all entries)) (encode-write_line entry e h)
    ∙ and_then_congr (write_line (meta_bytes entry.node, entry.path) e) (encode_all entries)
        (write_lines (lines_of entries)) (λ e'. encode_all-write_lines entries e' hs)
  where
    and_then_congr :
        (r : Encoder × Result (Unit {0}) Frcode.Error)
        (f g : Encoder → Encoder × Result (Unit {0}) Frcode.Error)
        → ((e' : Encoder) → f e' ≡ g e')
        → and_then r f ≡ and_then r g
    and_then_congr (e', err x) f g same = refl
    and_then_congr (e', ok u) f g same = same e'

pub encode_package-package_bytes :
    (entries : List FileTreeEntry) (json : Bytes)
    → AreEncodable entries
    → encode_package entries json ≡ package_bytes (lines_of entries) (codes "p") json
unfolding encode_package package_bytes
encode_package-package_bytes entries json h =
    ap
      (λ (all : Encoder → Encoder × Result (Unit {0}) Frcode.Error).
        new [] (codes "p") json >>= λ fr. written (and_then (all fr) finish))
      (fun_ext (λ fr. encode_all-write_lines entries fr h))

pub AreEncodable-ArePlain :
    (entries : List FileTreeEntry) → AreEncodable entries → ArePlain (lines_of entries)
AreEncodable-ArePlain [] h = tt
AreEncodable-ArePlain (entry ∷ entries) (h, hs) =
    let plain = (is_encodable-IsPlain entry).0 h in
    (plain.0, plain.1, AreEncodable-ArePlain entries hs)

pub kept-AreEncodable :
    (prefixes : List Bytes) (entries : List FileTreeEntry) → AreEncodable (kept prefixes entries)
unfolding kept
kept-AreEncodable prefixes [] = tt
kept-AreEncodable prefixes (entry ∷ entries) = ground (arith, kept-AreEncodable prefixes entries)

pub Decode-all :
    (entries : List FileTreeEntry) → AreEncodable entries → AreSized entries → Decode entries
Decode-all [] h sized = tt
Decode-all (entry ∷ entries) (h, hs) (s, ss) =
    (decode-meta_bytes entry s ((is_encodable-IsPlain entry).0 h).0.0, Decode-all entries hs ss)

pub kept-AreSized :
    (prefixes : List Bytes) (entries : List FileTreeEntry)
    → AreSized entries
    → AreSized (kept prefixes entries)
unfolding kept
kept-AreSized prefixes [] h = tt
kept-AreSized prefixes (entry ∷ entries) (h, hs) = ground (arith, kept-AreSized prefixes entries hs)
