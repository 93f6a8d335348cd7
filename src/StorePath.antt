-- ===== src/StorePath.antt =====
-- crates/nixdex-core/src/store_path.rs: store paths `{store_dir}/{hash}-{name}` and their origin.
-- A `String` is the list of its UTF-8 bytes; `-` and `/` are single bytes there.
pub mod RoundTrip
mod Tests
use mathlib.Core.Option
use nixdex.Prelude.{Bool, Option, none, some, List, [], ◌∷◌, ◌++◌}
use nixdex.Prelude.Bytes.{Bytes}
use nixdex.Prelude.Split.{split_once, rsplit_once}

pub record Origin : Type 0 where
  pub attr : Bytes
  pub output : Bytes
  pub toplevel : Bool
  pub system : Option Bytes

pub record StorePath : Type 0 where
  pub store_dir : Bytes
  pub hash : Bytes
  pub name : Bytes
  pub origin : Origin

-- `match prefix.rsplit_once('/') { Some((dir, hash)) => (dir, hash), None => ("", prefix) }`
abbrev dir_and_hash : Bytes → Option (Bytes × Bytes) → Bytes × Bytes
dir_and_hash prefix (some split) = split
dir_and_hash prefix none = ([], prefix)

pub new : Bytes → Bytes → Bytes → Origin → StorePath
new store_dir hash name origin = record {
  store_dir = store_dir;
  hash = hash;
  name = name;
  origin = origin;
}

abbrev parse_split : Origin → Bytes × Bytes → StorePath
parse_split origin (prefix, name) =
    let (store_dir, hash) = dir_and_hash prefix (rsplit_once b'/' prefix) in
    record { store_dir = store_dir; hash = hash; name = name; origin = origin }

pub parse : Origin → Bytes → Option StorePath
parse origin path = Option.map (parse_split origin) (split_once b'-' path)

-- `format!("{}/{}-{}", …)`, also the `Display` instance.
pub as_str : StorePath → Bytes
as_str p = p.store_dir ++ (b'/' ∷ (p.hash ++ (b'-' ∷ p.name)))
