-- ===== src/Frcode/Lines.antt =====
-- A run of lines through the encoder of crates/nixdex-core/src/frcode.rs, and back.
use nixdex.Prelude.{ℕ, suc, ◌^◌, ◌≤◌, ◌<◌, ◌≡◌, ◌⊎◌, inl, refl, Option, none, some, arith}
use nixdex.Prelude.{List, [], ◌∷◌, ◌++◌, length, take, drop, take-append-drop, ap, ◌∙◌, sym, ok}
use nixdex.Prelude.Bytes.{Bytes, contains-drop}
use nixdex.Frcode.{Encoder, shared_loop}
use nixdex.Frcode.Package.{and_then, write_lines}
use nixdex.Frcode.Format.{Line, read_lines, prepend}
use mathlib.Core.List.{append-nil, append_assoc}
use nixdex.Frcode.Line.{
  IsPlain, shared_loop_prefix, line_bytes, read_line-line_bytes, after_line, write_line-after_line,
  read_lines_step,
}

abbrev pub ArePlain : List Line → Type 0
ArePlain [] = Unit
ArePlain (line ∷ lines) = IsPlain line.0 × IsPlain line.1 × ArePlain lines

-- The reader's previous path, when the encoder has written its own or starts afresh.
abbrev pub Follows : Bytes → Encoder → Type 0
Follows last e = (e.last ≡ last) ⊎ (e.last ≡ [])

abbrev pub final_path : List Line → Bytes → Bytes
final_path [] last = last
final_path (line ∷ lines) last = final_path lines line.1

abbrev pub longer : List Line → ℕ → ℕ
longer [] fuel = fuel
longer (line ∷ lines) fuel = suc (longer lines fuel)

-- A run of lines: what the encoder becomes, and how the reader takes it.
pub record Run (lines : List Line) (e : Encoder) (last : Bytes) : Type 0 where
  pub out : Bytes
  pub last' : Bytes
  pub shared' : ℕ
  pub writes :
      write_lines lines e
      ≡ (record e { writer = e.writer ++ out; last = last'; shared_len = shared' }, ok tt)
  pub small : shared' < 2 ^ 15
  pub reads :
      (fuel : ℕ) (rest : Bytes)
      → read_lines (longer lines fuel) last e.shared_len (out ++ rest)
        ≡ prepend lines (read_lines fuel (final_path lines last) shared' rest)

pub prefix_of_last :
    (e : Encoder) (last path : Bytes) (k : ℕ)
    → Follows last e
    → k ≤ length e.last
    → take k e.last ≡ take k path
    → (k ≤ length last) × (take k last ++ drop k path ≡ path)
prefix_of_last e last path k f fits same = ground (arith, take-append-drop k path, take_zero k)
  where
    take_zero : (n : ℕ) → n ≤ 0 → (n ≡ 0)
    take_zero n h = omega arith

pub prepend_nil : (o : Option (List Line)) → prepend [] o ≡ o
prepend_nil none = refl
prepend_nil (some lines) = refl

pub prepend-prepend :
    (xs ys : List Line) (o : Option (List Line)) → prepend xs (prepend ys o) ≡ prepend (xs ++ ys) o
prepend-prepend xs ys none = refl
prepend-prepend xs ys (some lines) = ap some (sym (append_assoc xs ys lines))

module _ (meta path : Bytes) (lines : List Line) (e : Encoder) (last : Bytes) (k : ℕ)
    (plain_meta : IsPlain meta) (plain_path : IsPlain path) (small : e.shared_len < 2 ^ 15)
    (count : shared_loop e.last path 0 ≡ k) (small' : k < 2 ^ 15) (in_path : k ≤ length path)
    (in_last : k ≤ length last) (rebuilds : take k last ++ drop k path ≡ path)
    (later : Run lines (after_line (meta, path) k e) path) where
  line : Bytes
  line = line_bytes meta e.shared_len path k (drop k path)

  cons_writes : write_lines ((meta, path) ∷ lines) e ≡ (
    record e {
      writer = e.writer ++ (line ++ later.out);
      last = later.last';
      shared_len = later.shared';
    },
    ok tt,
  )
  unfolding line
  cons_writes =
      ap (λ p. and_then p (write_lines lines))
        (write_line-after_line meta path e k plain_meta plain_path count small' in_path)
      ∙ later.writes
      ∙ ap
          (λ (w : Bytes).
            (record e { writer = w; last = later.last'; shared_len = later.shared' }, ok tt))
          (append_assoc e.writer line later.out)

  cons_reads :
      (fuel : ℕ) (rest : Bytes)
      → read_lines
          (longer ((meta, path) ∷ lines) fuel)
          last
          e.shared_len
          ((line ++ later.out) ++ rest)
        ≡ prepend
            ((meta, path) ∷ lines)
            (read_lines fuel (final_path ((meta, path) ∷ lines) last) later.shared' rest)
  unfolding line
  cons_reads fuel rest =
      ap (λ (b : Bytes). read_lines (suc (longer lines fuel)) last e.shared_len b)
        (append_assoc line later.out rest)
      ∙ read_lines_step (longer lines fuel) last e.shared_len (line ++ (later.out ++ rest)) (
          read_line-line_bytes last meta path (drop k path) e.shared_len k (later.out ++ rest)
            plain_meta.0 (contains-drop b'\n' k path plain_path.1) small small' in_last rebuilds)
      ∙ ap (prepend ((meta, path) ∷ [])) (later.reads fuel rest)
      ∙ prepend-prepend ((meta, path) ∷ []) lines _

  cons_Run : Run ((meta, path) ∷ lines) e last
  cons_Run = record {
    out = line ++ later.out;
    last' = later.last';
    shared' = later.shared';
    writes = cons_writes;
    small = later.small;
    reads = cons_reads;
  }

pub write_lines-Run :
    (lines : List Line) (e : Encoder) (last : Bytes)
    → ArePlain lines
    → e.shared_len < 2 ^ 15
    → Follows last e
    → Run lines e last
write_lines-Run [] e last plain small f = record {
  out = [];
  last' = e.last;
  shared' = e.shared_len;
  writes = rw append-nil;
  small = small;
  reads = λ fuel rest. sym (prepend_nil (read_lines fuel last e.shared_len rest));
}
write_lines-Run ((meta, path) ∷ lines) e last (hm, hp, plain) small f =
    let (k, count, lt, in_last, in_path, same) = shared_loop_prefix e.last path 0 (omega arith) in
    let (in_last', rebuilds) = prefix_of_last e last path k f in_last same in
    cons_Run meta path lines e last k hm hp small (omega (arith, count)) (omega arith) in_path
      in_last' rebuilds
      (write_lines-Run lines (after_line (meta, path) k e) path plain (omega arith) (inl refl))
