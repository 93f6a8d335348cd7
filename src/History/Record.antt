-- ===== src/History/Record.antt =====
-- What `HistoryBuilder` keeps, crates/nixdex-history/src/lib.rs.
use nixdex.Prelude.{
  ◌+◌, ◌≤◌, ◌≡◌, refl, arith, true, false, not, ◌||◌, List, [], ◌∷◌, leb, if_elim, length, Result,
  ok, err, Bool-cases, inl, inr,
}
use nixdex.Prelude.Bytes.{
  Bytes, bytes_eq, bytes_eq_refl, bytes_eq→eq, bytes_le, bytes_le_total, bytes_le_trans,
}
use nixdex.History.{
  Error, VersionEntry, max_versions_per_attr, check_entry, has_version, insert_version,
  record_entry,
}

abbrev pub NoneNewer : Bytes → List VersionEntry → Type 0
NoneNewer date [] = Unit
NoneNewer date (v ∷ vs) = (bytes_le v.date date ≡ true) × NoneNewer date vs

abbrev pub AreNewestFirst : List VersionEntry → Type 0
AreNewestFirst [] = Unit
AreNewestFirst (v ∷ vs) = NoneNewer v.date vs × AreNewestFirst vs

abbrev pub AreDistinct : List VersionEntry → Type 0
AreDistinct [] = Unit
AreDistinct (v ∷ vs) = (has_version v.version vs ≡ false) × AreDistinct vs

abbrev pub AreChecked : List VersionEntry → Type 0
AreChecked [] = Unit
AreChecked (v ∷ vs) = (check_entry v ≡ ok tt) × AreChecked vs

-- The versions of an attribute: newest first, each once, not too many, and none too long.
pub record IsHistory (versions : List VersionEntry) : Type 0 where
  pub newest_first : AreNewestFirst versions
  pub distinct : AreDistinct versions
  pub bounded : length versions ≤ max_versions_per_attr
  pub checked : AreChecked versions

NoneNewer-weaken :
    (early late : Bytes) (vs : List VersionEntry)
    → bytes_le early late ≡ true
    → NoneNewer early vs
    → NoneNewer late vs
NoneNewer-weaken early late [] le h = tt
NoneNewer-weaken early late (v ∷ vs) le (first, rest) =
    (bytes_le_trans v.date early late first le, NoneNewer-weaken early late vs le rest)

insert_version-NoneNewer :
    (entry : VersionEntry) (date : Bytes) (vs : List VersionEntry)
    → bytes_le entry.date date ≡ true
    → NoneNewer date vs
    → NoneNewer date (insert_version entry vs)
unfolding insert_version
insert_version-NoneNewer entry date [] le h = (le, tt)
insert_version-NoneNewer entry date (v ∷ vs) le (first, rest) =
    if_elim (NoneNewer date) (not (bytes_le entry.date v.date)) (λ e. (le, (first, rest)))
      (λ e. (first, insert_version-NoneNewer entry date vs le rest))

insert_version-AreNewestFirst :
    (entry : VersionEntry) (vs : List VersionEntry)
    → AreNewestFirst vs
    → AreNewestFirst (insert_version entry vs)
unfolding insert_version
insert_version-AreNewestFirst entry [] h = (tt, tt)
insert_version-AreNewestFirst entry (v ∷ vs) (first, rest) =
    if_elim AreNewestFirst (not (bytes_le entry.date v.date))
      (λ e.
        let le = bytes_le_total entry.date v.date (ground (arith, e)) in
        ((le, NoneNewer-weaken v.date entry.date vs le first), (first, rest)))
      (λ e. (
        insert_version-NoneNewer entry v.date vs (ground (arith, e)) first,
        insert_version-AreNewestFirst entry vs rest,
      ))

has_version-insert_version :
    (version : Bytes) (entry : VersionEntry) (vs : List VersionEntry)
    → has_version version (insert_version entry vs)
      ≡ (bytes_eq entry.version version || has_version version vs)
unfolding insert_version has_version
has_version-insert_version version entry [] = refl
has_version-insert_version version entry (v ∷ vs) =
    ground (arith, has_version-insert_version version entry vs)

differs :
    (entry v : VersionEntry)
    → bytes_eq v.version entry.version ≡ false
    → bytes_eq entry.version v.version ≡ false
differs entry v h = elim (Bool-cases (bytes_eq entry.version v.version)) [
  | inl e ↦ ground (arith, h, bytes_eq_refl v.version, bytes_eq→eq entry.version v.version e)
  | inr e ↦ e
]

absent :
    (entry v : VersionEntry) (vs : List VersionEntry)
    → has_version entry.version (v ∷ vs) ≡ false
    → (bytes_eq v.version entry.version ≡ false) × (has_version entry.version vs ≡ false)
unfolding has_version
absent entry v vs h = (ground (arith, h), ground (arith, h))

insert_version-AreDistinct :
    (entry : VersionEntry) (vs : List VersionEntry)
    → has_version entry.version vs ≡ false
    → AreDistinct vs
    → AreDistinct (insert_version entry vs)
unfolding insert_version
insert_version-AreDistinct entry [] new h = (new, tt)
insert_version-AreDistinct entry (v ∷ vs) new (first, rest) =
    if_elim AreDistinct (not (bytes_le entry.date v.date)) (λ e. (new, (first, rest)))
      (λ e.
        let (apart, later) = absent entry v vs new in
        (
          ground
              (arith, has_version-insert_version v.version entry vs, differs entry v apart, first),
          insert_version-AreDistinct entry vs later rest,
        ))

length-insert_version :
    (entry : VersionEntry) (vs : List VersionEntry)
    → length (insert_version entry vs) ≡ length vs + 1
unfolding insert_version
length-insert_version entry [] = refl
length-insert_version entry (v ∷ vs) = ground (arith, length-insert_version entry vs)

insert_version-AreChecked :
    (entry : VersionEntry) (vs : List VersionEntry)
    → check_entry entry ≡ ok tt
    → AreChecked vs
    → AreChecked (insert_version entry vs)
unfolding insert_version
insert_version-AreChecked entry [] fine h = (fine, tt)
insert_version-AreChecked entry (v ∷ vs) fine (first, rest) =
    if_elim AreChecked (not (bytes_le entry.date v.date)) (λ e. (fine, (first, rest)))
      (λ e. (first, insert_version-AreChecked entry vs fine rest))

abbrev pub Keeps : Result (List VersionEntry) Error → Type 0
Keeps (ok versions) = IsHistory versions
Keeps (err e) = Unit

pub record_entry-IsHistory :
    (entry : VersionEntry) (vs : List VersionEntry)
    → check_entry entry ≡ ok tt
    → IsHistory vs
    → Keeps (record_entry entry vs)
unfolding record_entry
record_entry-IsHistory entry vs fine h =
    if_elim Keeps (has_version entry.version vs) (λ e. h)
      (λ new.
        if_elim Keeps (leb max_versions_per_attr (length vs)) (λ e. tt)
          (λ room.
            let longer = length-insert_version entry vs in
            record {
              newest_first = insert_version-AreNewestFirst entry vs h.newest_first;
              distinct = insert_version-AreDistinct entry vs new h.distinct;
              bounded = ground (arith, room);
              checked = insert_version-AreChecked entry vs fine h.checked;
            }))
