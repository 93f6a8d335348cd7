-- ===== src/Frcode/RoundTrip.antt =====
-- What the encoder of crates/nixdex-core/src/frcode.rs writes is read back by the format's reader.
use nixdex.Prelude.{ℕ, suc, ◌≡◌, inr, refl, arith, false}
use nixdex.Prelude.{List, [], ◌∷◌, ◌++◌, ap, ◌∙◌, ok}
use nixdex.Prelude.Bytes.{Bytes}
use nixdex.Frcode.{Encoder, new, diff_bytes, neg_i16, finish}
use nixdex.Frcode.Package.{package_bytes}
use nixdex.Frcode.Format.{Line, read_lines, prepend}
use mathlib.Core.List.{append_assoc}
use nixdex.Frcode.Line.{
  IsPlain, line_bytes, read_line-line_bytes, IsPlain-validates, regroup, read_lines_step,
}
use nixdex.Frcode.Lines.{ArePlain, final_path, longer, Run, prepend-prepend, write_lines-Run}

-- The encoder that `new` returns.
abbrev fresh : Bytes → Bytes → Encoder
fresh footer_meta footer_path = record {
  writer = [];
  last = [];
  shared_len = 0;
  footer_meta = footer_meta;
  footer_path = footer_path;
  footer_written = false;
}

new-eq-fresh :
    (footer_meta footer_path : Bytes)
    → IsPlain footer_meta
    → IsPlain footer_path
    → new [] footer_meta footer_path ≡ ok (fresh footer_meta footer_path)
unfolding new
new-eq-fresh footer_meta footer_path hm hp =
    ground (arith, IsPlain-validates footer_meta hm, IsPlain-validates footer_path hp)

footer_read :
    (lines : List Line) (footer_meta footer_path : Bytes) (fuel : ℕ) (last rest : Bytes)
    → IsPlain footer_meta
    → IsPlain footer_path
    → Run lines (fresh footer_meta footer_path) last
    → (bytes : Bytes) × (package_bytes lines footer_meta footer_path ≡ ok bytes)
      × (read_lines (longer lines (suc fuel)) last 0 (bytes ++ rest)
          ≡ prepend
              (lines ++ ((footer_meta, footer_path) ∷ []))
              (read_lines fuel footer_path 0 rest))
unfolding package_bytes finish
footer_read lines footer_meta footer_path fuel last rest hm hp run =
    let footer = line_bytes footer_meta run.shared' footer_path 0 footer_path in
    (
      run.out ++ footer,
      rw (new-eq-fresh footer_meta footer_path hm hp, run.writes)
          (ap ok (regroup run.out footer_meta (diff_bytes (neg_i16 run.shared')) footer_path)),
      ap (λ (b : Bytes). read_lines (longer lines (suc fuel)) last 0 b)
            (append_assoc run.out footer rest)
          ∙ run.reads (suc fuel) (footer ++ rest)
          ∙ ap (prepend lines) (
              read_lines_step fuel (final_path lines last) run.shared' (footer ++ rest) (
                read_line-line_bytes (final_path lines last) footer_meta footer_path footer_path
                  run.shared' 0 rest hm.0 hp.1 run.small (omega arith) (omega arith) refl))
          ∙ prepend-prepend lines ((footer_meta, footer_path) ∷ []) _,
    )

-- For entries, and a footer, whose metadata and paths have neither NUL nor newline, the package is
-- written; and whatever path came before it, and whatever follows, the reader takes from its bytes
-- the entries and then the footer, and goes on with the footer's path and a shared length of 0.
pub read_lines-package_bytes :
    (lines : List Line) (footer_meta footer_path : Bytes) (fuel : ℕ) (last rest : Bytes)
    → ArePlain lines
    → IsPlain footer_meta
    → IsPlain footer_path
    → (bytes : Bytes) × (package_bytes lines footer_meta footer_path ≡ ok bytes)
      × (read_lines (longer lines (suc fuel)) last 0 (bytes ++ rest)
          ≡ prepend
              (lines ++ ((footer_meta, footer_path) ∷ []))
              (read_lines fuel footer_path 0 rest))
read_lines-package_bytes lines footer_meta footer_path fuel last rest plain hm hp =
    footer_read lines footer_meta footer_path fuel last rest hm hp
      (write_lines-Run lines (fresh footer_meta footer_path) last plain (omega arith) (inr refl))
