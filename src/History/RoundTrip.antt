-- ===== src/History/RoundTrip.antt =====
-- A sidecar is read back as it was written, crates/nixdex-history/src/lib.rs.
use nixdex.Prelude.{
  ℕ, ◌≤◌, ◌≡◌, ◌≢◌, refl, sym, ap, ◌∙◌, arith, true, false, Option, some, List, [], ◌∷◌, ◌++◌, ltb,
  leb, if_elim, length, ok, Bool-cases, inl, inr,
}
use nixdex.Prelude.Bytes.{Bytes, contains, bytes_eq, bytes_eq→eq, bytes_le, bytes_le_total}
use mathlib.Core.Path.{subst}
use nixdex.History.{
  VersionEntry, VersionHistory, Entries, max_history_bytes, max_versions_per_attr, check_entries,
  insert_history, header, split_lines, write_lines, write_sidecar, load_history, load_line,
  load_lines, open_sidecar,
}
use nixdex.History.Record.{IsHistory, AreChecked}
use nixdex.History.Builder.{IsBuilder, AllAbove}

split_lines-line :
    (line rest : Bytes)
    → contains 10 line ≡ false
    → split_lines (line ++ (10 ∷ rest)) ≡ line ∷ split_lines rest
unfolding split_lines contains
split_lines-line [] rest h = refl
split_lines-line (b ∷ line) rest h = ground (arith, h, split_lines-line line rest)

check_entries_lem : (vs : List VersionEntry) → AreChecked vs → check_entries vs ≡ ok tt
unfolding check_entries
check_entries_lem [] h = refl
check_entries_lem (v ∷ vs) (first, rest) = rw first (check_entries_lem vs rest)

le_refl : (xs : Bytes) → bytes_le xs xs ≡ true
le_refl xs = elim (Bool-cases (bytes_le xs xs)) [ inl e ↦ e | inr e ↦ bytes_le_total xs xs e ]

-- All attributes so far stand before `attr`.
abbrev Below : Entries → Bytes → Type 0
Below [] attr = Unit
Below (a ∷ acc) attr = (bytes_le attr a.attr ≡ false) × Below acc attr

abbrev AreBelow : Entries → Entries → Type 0
AreBelow acc [] = Unit
AreBelow acc (h ∷ hs) = Below acc h.attr × AreBelow acc hs

Below-snoc :
    (acc : Entries) (h : VersionHistory) (attr : Bytes)
    → Below acc attr
    → bytes_le attr h.attr ≡ false
    → Below (acc ++ (h ∷ [])) attr
Below-snoc [] h attr below last = (last, tt)
Below-snoc (a ∷ acc) h attr (first, rest) last = (first, Below-snoc acc h attr rest last)

AreBelow-snoc :
    (acc : Entries) (h : VersionHistory) (hs : Entries)
    → AreBelow acc hs
    → AllAbove h.attr hs
    → AreBelow (acc ++ (h ∷ [])) hs
AreBelow-snoc acc h [] below above = tt
AreBelow-snoc acc h (k ∷ hs) (first, rest) (a, above) =
    (Below-snoc acc h k.attr first a, AreBelow-snoc acc h hs rest above)

not_equal : (xs ys : Bytes) → bytes_le ys xs ≡ false → bytes_eq xs ys ≡ false
not_equal xs ys h = elim (Bool-cases (bytes_eq xs ys)) [
  | inl e ↦
      let same = subst (λ u. bytes_le u xs ≡ true) (bytes_eq→eq xs ys e) (le_refl xs) in
      ground (arith, h, same)
  | inr e ↦ e
]

insert_history-last :
    (h : VersionHistory) (acc : Entries) → Below acc h.attr → insert_history h acc ≡ acc ++ (h ∷ [])
unfolding insert_history
insert_history-last h [] below = refl
insert_history-last h (a ∷ acc) (first, rest) =
    ground (arith, first, not_equal a.attr h.attr first, insert_history-last h acc rest)

append_assoc :
    (xs : Entries) (h : VersionHistory) (ys : Entries) → (xs ++ (h ∷ [])) ++ ys ≡ xs ++ (h ∷ ys)
append_assoc [] h ys = refl
append_assoc (x ∷ xs) h ys = ap (λ u. x ∷ u) (append_assoc xs h ys)

append_nil : (xs : Entries) → xs ++ [] ≡ xs
append_nil [] = refl
append_nil (x ∷ xs) = ap (λ u. x ∷ u) (append_nil xs)

eight : (bytes : Bytes) → leb 8 (length (header ++ bytes)) ≡ true
eight bytes = ground arith

nothing_below : (hs : Entries) → AreBelow [] hs
nothing_below [] = tt
nothing_below (h ∷ hs) = (tt, nothing_below hs)

bounded_ok : {n : ℕ} → n ≤ max_versions_per_attr → leb n max_versions_per_attr ≡ true
bounded_ok h = ground arith

fits_ok : {n : ℕ} → n ≤ max_history_bytes → leb n max_history_bytes ≡ true
fits_ok h = ground arith

module _ (to_string : VersionHistory → Bytes) (from_slice : Bytes → Option VersionHistory) where
  -- The JSON of the histories parses to them, takes one line and is not empty.
  abbrev pub AreJson : Entries → Type 0
  AreJson [] = Unit
  AreJson (h ∷ hs) =
      (from_slice (to_string h) ≡ some h)
      × (contains 10 (to_string h) ≡ false)
      × (to_string h ≢ [])
      × AreJson hs

  load_history-last :
      (h : VersionHistory) (acc : Entries)
      → IsHistory h.versions
      → Below acc h.attr
      → load_history h acc ≡ ok (acc ++ (h ∷ []))
  unfolding load_history
  load_history-last h acc right below =
      rw (bounded_ok right.bounded, check_entries_lem h.versions right.checked)
        (ap ok (insert_history-last h acc below))

  load_line-last :
      (line : Bytes) (h : VersionHistory) (acc : Entries)
      → from_slice line ≡ some h
      → line ≢ []
      → IsHistory h.versions
      → Below acc h.attr
      → load_line from_slice line acc ≡ ok (acc ++ (h ∷ []))
  unfolding load_line
  load_line-last [] h acc found text right below = absurd (text refl)
  load_line-last (b ∷ line) h acc found text right below =
      rw found (load_history-last h acc right below)

  load_lines-write_lines :
      (hs acc : Entries)
      → AreJson hs
      → IsBuilder hs
      → AreBelow acc hs
      → load_lines from_slice (split_lines (write_lines to_string hs)) acc ≡ ok (acc ++ hs)
  unfolding load_lines write_lines split_lines load_line
  load_lines-write_lines [] acc json right below = ap ok (sym (append_nil acc))
  load_lines-write_lines (h ∷ hs) acc (reads, one_line, has_text, json) (first, above, right)
        (b, below) =
      rw (split_lines-line (to_string h) (write_lines to_string hs) one_line) (
        rw (load_line-last (to_string h) h acc reads has_text first b) (
          load_lines-write_lines hs (acc ++ (h ∷ [])) json right
            (AreBelow-snoc acc h hs below above)
          ∙ ap ok (append_assoc acc h hs)))

  -- A builder's sidecar, unless it is too large, opens to the entries that the builder held: given that
  -- the JSON of each history parses to it, takes one line and is not empty.
  pub open_sidecar-write_sidecar :
      (entries : Entries)
      → AreJson entries
      → IsBuilder entries
      → length (header ++ write_lines to_string entries) ≤ max_history_bytes
      → (bytes : Bytes) × (write_sidecar to_string entries ≡ ok bytes)
        × (open_sidecar from_slice bytes ≡ ok entries)
  unfolding write_sidecar open_sidecar bytes_eq
  open_sidecar-write_sidecar entries json right fits = (
    header ++ write_lines to_string entries,
    if_elim (λ u. u ≡ ok (header ++ write_lines to_string entries))
        (ltb max_history_bytes (length (header ++ write_lines to_string entries)))
        (λ e. ground (arith, e)) (λ e. refl),
    rw (fits_ok fits, eight (write_lines to_string entries))
        (load_lines-write_lines entries [] json right (nothing_below entries)),
  )
