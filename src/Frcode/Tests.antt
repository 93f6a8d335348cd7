-- ===== src/Frcode/Tests.antt =====
-- Runs of the encoder of crates/nixdex-core/src/frcode.rs.
use nixdex.Prelude.{
  ◌+◌, ◌^◌, ◌≤◌, ◌<◌, ◌≡◌, ◌⊎◌, refl, List, [], ◌∷◌, ◌++◌, ok, err, some, arith, take, false,
}
use nixdex.Prelude.Bytes.{Bytes, codes, contains}
use nixdex.Prelude.Split.{split_once}
use nixdex.Frcode.{
  Encoder, forbidden_byte, validate_bytes, new, diff_bytes, write_meta, shared_loop, write_path,
  finish,
}
use nixdex.Frcode.Format.{Line, read_diff, add_signed, read_line, read_lines, prepend}
use nixdex.Frcode.Package.{package_bytes}
use nixdex.Frcode.Line.{IsPlain}
use nixdex.Frcode.Lines.{longer}
use nixdex.Frcode.Bounds.{IsValid, write_path-IsValid, shared_loop-longest}
use nixdex.Frcode.RoundTrip.{read_lines-package_bytes}

abbrev listing : List Line
listing = (codes "4d", codes "/bin") ∷ (codes "9x", codes "/bin/hi") ∷ (codes "1r", codes "/b") ∷ []

listing_bytes :
    package_bytes listing (codes "p") (codes "{}")
    ≡ ok (
        codes "4d"
        ++ (0
            ∷ 0
            ∷ (codes "/bin"
                ++ (b'\n'
                    ∷ (codes "9x"
                        ++ (0
                            ∷ 4
                            ∷ (codes "/hi"
                                ++ (b'\n'
                                    ∷ (codes "1r"
                                        ++ (0
                                            ∷ 254
                                            ∷ b'\n'
                                            ∷ (codes "p"
                                                ++ (0
                                                    ∷ 254
                                                    ∷ (codes "{}" ++ (b'\n' ∷ []))))))))))))))
unfolding package_bytes new validate_bytes contains write_meta write_path diff_bytes shared_loop
    finish
listing_bytes = refl

wide_diff : diff_bytes 200 ≡ 0x80 ∷ 0 ∷ 200 ∷ []
unfolding diff_bytes
wide_diff = refl

read_back :
    read_lines 2 [] 0 (codes "4d" ++ (0 ∷ 0 ∷ (codes "/bin" ++ (b'\n' ∷ []))))
    ≡ some ((codes "4d", codes "/bin") ∷ [])
unfolding read_lines read_line split_once read_diff add_signed
read_back = refl

read_lines-package_bytes_example :
    (bytes : Bytes) × (package_bytes listing (codes "p") (codes "{}") ≡ ok bytes)
    × (read_lines (longer listing (1 + 1)) [] 0 (bytes ++ [])
        ≡ prepend (listing ++ ((codes "p", codes "{}") ∷ [])) (read_lines 1 (codes "{}") 0 []))
unfolding contains
read_lines-package_bytes_example =
    read_lines-package_bytes listing (codes "p") (codes "{}") 1 [] []
      ((refl, refl), (refl, refl), ((refl, refl), (refl, refl), ((refl, refl), (refl, refl), tt)))
      (refl, refl) (refl, refl)

abbrev midway : Encoder
midway = record {
  writer = [];
  last = codes "/bin";
  shared_len = 2;
  footer_meta = codes "p";
  footer_path = codes "{}";
  footer_written = false;
}

write_path-IsValid_example :
    IsValid (write_path (codes "/bin/hi") midway).0
    × ((IsPlain (codes "/bin/hi")
          × ((write_path (codes "/bin/hi") midway).1 ≡ ok tt)
          × ((write_path (codes "/bin/hi") midway).0.last ≡ codes "/bin/hi"))
        ⊎ (¬ IsPlain (codes "/bin/hi")
            × (write_path (codes "/bin/hi") midway ≡ (midway, err forbidden_byte))))
write_path-IsValid_example = write_path-IsValid (codes "/bin/hi") midway (omega arith)

shared_loop-longest_example :
    (2 ≤ shared_loop (codes "/bin") (codes "/boot") 0)
    × (shared_loop (codes "/bin") (codes "/boot") 0 < 2 ^ 15)
    × (take (shared_loop (codes "/bin") (codes "/boot") 0) (codes "/bin")
        ≡ take (shared_loop (codes "/bin") (codes "/boot") 0) (codes "/boot"))
shared_loop-longest_example =
    shared_loop-longest (codes "/bin") (codes "/boot") 2 (omega arith) (omega arith) (omega arith)
      refl
