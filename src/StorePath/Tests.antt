-- ===== src/StorePath/Tests.antt =====
-- Runs of crates/nixdex-core/src/store_path.rs.
use nixdex.Prelude.{◌≡◌, refl, ◌⊎◌, true, false, none, some, [], ◌∷◌}
use nixdex.Prelude.Bytes.{codes, contains}
use nixdex.Prelude.Split.{split_once, rsplit_once}
use nixdex.StorePath.{Origin, StorePath, parse, as_str}
use nixdex.StorePath.RoundTrip.{parse-as_str, as_str-parse, parse-eq-none}

abbrev hello_out : Origin
hello_out = record {
  attr = codes "hello.out";
  output = codes "out";
  toplevel = true;
  system = none;
}

abbrev hello : StorePath
hello = record {
  store_dir = codes "/nix/store";
  hash = codes "abc";
  name = codes "hello-2.10";
  origin = hello_out;
}

hello_text : as_str hello ≡ codes "/nix/store/abc-hello-2.10"
unfolding as_str
hello_text = refl

-- A bare `abc-hello` is accepted, with an empty store directory.
bare_parses :
    parse hello_out (codes "abc-hello")
    ≡ some (record hello { store_dir = []; name = codes "hello" })
unfolding parse split_once rsplit_once
bare_parses = refl

-- A store directory with a `-` is cut there.
dashed_dir :
    parse hello_out (codes "/my-store/abc-hello")
    ≡ some (record hello { store_dir = []; hash = codes "my"; name = codes "store/abc-hello" })
unfolding parse split_once rsplit_once
dashed_dir = refl

parse-as_str_example : parse hello_out (as_str hello) ≡ some hello
unfolding contains
parse-as_str_example = parse-as_str hello refl refl refl

as_str-parse_example :
    (contains b'-' (codes "abc") ≡ false)
    × (contains b'/' (codes "abc") ≡ false)
    × (contains b'-' [] ≡ false)
    × ((as_str (record hello { store_dir = []; name = codes "hello" }) ≡ codes "abc-hello")
        ⊎ (([] ≡ codes "")
            × (as_str (record hello { store_dir = []; name = codes "hello" })
                ≡ b'/' ∷ codes "abc-hello")))
as_str-parse_example =
    as_str-parse hello_out (codes "abc-hello")
      (record hello { store_dir = []; name = codes "hello" }) bare_parses

parse-eq-none_example :
    (parse hello_out (codes "abc") ≡ none → contains b'-' (codes "abc") ≡ false)
    × (contains b'-' (codes "abc") ≡ false → parse hello_out (codes "abc") ≡ none)
parse-eq-none_example = parse-eq-none hello_out (codes "abc")
