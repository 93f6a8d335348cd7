-- ===== src/Frcode.antt =====
-- crates/nixdex-core/src/frcode.rs: the encoder of the front-coded listing format.
-- Every encoder of the program writes to a `Vec<u8>`, so `writer` is the list of the bytes written
-- and writing does not fail. An `i16` is its bit pattern, a number below 2^16: patterns from 2^15 on
-- are the negative values. A method returns the encoder and the result, so that what was written
-- before an error stays written.
pub mod Format
pub mod Package
pub mod Line
pub mod Bounds
pub mod Lines
pub mod RoundTrip
mod Tests
use nixdex.Prelude.{ℕ, zero, suc, ◌+◌, ◌-◌, ◌/◌, ◌%◌, ◌^◌, Bool, true, false, not, ◌&&◌, ◌||◌}
use nixdex.Prelude.{
  List, [], ◌∷◌, ◌++◌, ◌==◌, ltb, leb, if◌then◌else◌, length, drop, Result, ok, err, ◌>>=◌, ◌>>◌,
}
use nixdex.Prelude.Bytes.{Bytes, contains}

-- The variants of the error enumeration. `Io` is the reader's and writer's own error.
pub data Error : Type 0 where
  io : Error
  shared_out_of_range : ℕ → ℕ → Error
  shared_overflow : ℕ → ℕ → Error
  missing_nul : Error
  missing_newline : Error
  missing_prefix_differential : Error
  forbidden_byte : Error

pub record Encoder : Type 0 where
  pub writer : Bytes
  pub last : Bytes
  pub shared_len : ℕ
  pub footer_meta : Bytes
  pub footer_path : Bytes
  pub footer_written : Bool

unfoldable pub validate_bytes : Bytes → Result (Unit {0}) Error
validate_bytes bytes =
    if contains 0 bytes || contains b'\n' bytes then err forbidden_byte else ok tt

unfoldable pub new : Bytes → Bytes → Bytes → Result Encoder Error
new writer footer_meta footer_path = do
  validate_bytes footer_meta
  validate_bytes footer_path
  ok (record {
    writer = writer;
    last = [];
    shared_len = 0;
    footer_meta = footer_meta;
    footer_path = footer_path;
    footer_written = false;
  })

-- `self.writer.write_all(bytes)`
abbrev pub write_all : Bytes → Encoder → Encoder
write_all bytes e = record e { writer = e.writer ++ bytes }

-- i16 subtraction, negation and `abs`, which wrap in the release profile.
abbrev pub sub_i16 : ℕ → ℕ → ℕ
sub_i16 a b = (a + 2 ^ 16 - b) % 2 ^ 16

abbrev pub neg_i16 : ℕ → ℕ
neg_i16 a = sub_i16 0 a

abbrev pub abs_i16 : ℕ → ℕ
abs_i16 a = if ltb a (2 ^ 15) then a else neg_i16 a

-- `a < b` for a pattern `a` and a value `b` that is not negative.
abbrev pub lt_i16 : ℕ → ℕ → Bool
lt_i16 a b = if ltb a (2 ^ 15) then ltb a b else true

-- The bytes that `encode_diff` writes: `low` and `high` are the little-endian bytes of the pattern.
unfoldable pub diff_bytes : ℕ → Bytes
diff_bytes diff =
    let low = diff % 256 in
    let high = diff / 256 in if lt_i16 (abs_i16 diff) 127 then low ∷ [] else 0x80 ∷ high ∷ low ∷ []

unfoldable pub encode_diff : ℕ → Encoder → Encoder
encode_diff diff e = write_all (diff_bytes diff) e

unfoldable pub write_meta : Bytes → Encoder → Encoder × Result (Unit {0}) Error
write_meta meta e = elim (validate_bytes meta) [
  | err x ↦ (e, err x)
  | ok u ↦ (write_all meta e, ok tt)
]

-- The loop over `self.last.iter().zip(path.iter())`.
unfoldable pub shared_loop : Bytes → Bytes → ℕ → ℕ
shared_loop [] path shared = shared
shared_loop (a ∷ rest_a) [] shared = shared
shared_loop (a ∷ rest_a) (b ∷ rest_b) shared =
    let rest = shared_loop rest_a rest_b (shared + 1) in
    if not (a == b) || shared == 2 ^ 15 - 1 then shared else rest

-- `write_path` after the bytes are validated.
write_valid : Bytes → Encoder → Encoder × Result (Unit {0}) Error
unfolding encode_diff
write_valid path e =
    let previous_len = length e.last in
    let shared = shared_loop e.last path 0 in
    let diff = sub_i16 shared e.shared_len in
    let e' = record (encode_diff diff (write_all (0 ∷ []) e)) {
      last = path;
      shared_len = shared;
    } in
    if leb (2 ^ 15) shared then (e', err (shared_out_of_range previous_len shared)) else (
      write_all (b'\n' ∷ [])
          (if leb shared (length path) then write_all (drop shared path) e' else e'),
      ok tt,
    )

unfoldable pub write_path : Bytes → Encoder → Encoder × Result (Unit {0}) Error
unfolding write_valid
write_path path e = elim (validate_bytes path) [ err x ↦ (e, err x) | ok u ↦ write_valid path e ]

unfoldable pub write_footer : Encoder → Encoder × Result (Unit {0}) Error
unfolding encode_diff
write_footer e = if e.footer_written then (e, ok tt) else (
  record (write_all (b'\n' ∷ []) (
      write_all e.footer_path
        (encode_diff (neg_i16 e.shared_len) (write_all (0 ∷ []) (write_all e.footer_meta e))))) {
          footer_written = true;
        },
  ok tt,
)

-- `drop`: the footer, its error ignored.
unfoldable pub drop_encoder : Encoder → Encoder
unfolding write_footer
drop_encoder e = (write_footer e).0

-- `finish` consumes the encoder, which is dropped when it returns.
unfoldable pub finish : Encoder → Encoder × Result (Unit {0}) Error
unfolding write_footer drop_encoder
finish e = let (e', result) = write_footer e in (drop_encoder e', result)
