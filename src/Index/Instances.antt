-- ===== src/Index/Instances.antt =====
-- A map and a set with the documented behaviour of `fst` and `roaring`, for the tests.
use nixdex.Prelude.{ℕ, zero, suc, ◌≡◌, refl, ap, some, List, [], ◌∷◌, length}
use nixdex.Prelude.Bytes.{Bytes}
use nixdex.Prelude.SortedMap.{SortedMap, lookup}
use nixdex.Index.{Fst, Roaring, insert_ordinal, common, with_prefix}

-- A byte of a key after a 0, the value after a 1.
abbrev encode_entry : Bytes → ℕ → Bytes → Bytes
encode_entry [] v rest = 1 ∷ v ∷ rest
encode_entry (b ∷ key) v rest = 0 ∷ b ∷ encode_entry key v rest

abbrev encode_map : SortedMap ℕ → Bytes
encode_map [] = []
encode_map ((key, v) ∷ m) = encode_entry key v (encode_map m)

abbrev push_byte : ℕ → SortedMap ℕ → SortedMap ℕ
push_byte b [] = []
push_byte b ((key, v) ∷ m) = (b ∷ key, v) ∷ m

abbrev decode_map : Bytes → SortedMap ℕ
decode_map [] = []
decode_map (t ∷ []) = []
decode_map (zero ∷ b ∷ rest) = push_byte b (decode_map rest)
decode_map (suc t ∷ v ∷ rest) = ([], v) ∷ decode_map rest

abbrev decode_map-encode_entry :
    (key : Bytes) (v : ℕ) (rest : Bytes)
    → decode_map (encode_entry key v rest) ≡ (key, v) ∷ decode_map rest
decode_map-encode_entry [] v rest = refl
decode_map-encode_entry (b ∷ key) v rest = ap (push_byte b) (decode_map-encode_entry key v rest)

abbrev decode_map-encode_map : (m : SortedMap ℕ) → decode_map (encode_map m) ≡ m
decode_map-encode_map [] = refl
decode_map-encode_map ((key, v) ∷ m) =
    rw (decode_map-encode_entry key v (encode_map m), decode_map-encode_map m) refl

abbrev pub list_fst : Fst
list_fst = record {
  Map = SortedMap ℕ;
  build = λ m. some (encode_map m);
  open_map = λ bytes. some (decode_map bytes);
  get = λ m key. lookup key m;
  stream = λ m. m;
  search = λ m prefix. with_prefix prefix m;
  searched = λ m prefix. refl;
  built = λ m h. (encode_map m, refl, m, ap some (decode_map-encode_map m), refl, λ key. refl);
}

abbrev pub list_roaring : Roaring
list_roaring = record {
  Bitmap = List ℕ;
  empty = [];
  insert = insert_ordinal;
  iter = λ s. s;
  len = λ s. length s;
  intersect = common;
  serialize = λ s. some s;
  deserialize = λ bytes. some bytes;
  iter-empty = refl;
  iter-insert = λ n s. refl;
  len-iter = λ s. refl;
  iter-intersect = λ s other. refl;
  serialized = λ s. (s, refl, s, refl, refl);
}
