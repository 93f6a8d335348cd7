-- ===== src/History/Tests.antt =====
-- Runs of the builder, and the theorems about it at a concrete one.
use nixdex.Prelude.{◌≤◌, ◌≡◌, ◌≢◌, refl, arith, Option, some, [], ◌∷◌, ◌++◌, length, ok}
use nixdex.Prelude.Bytes.{Bytes, codes, bytes_eq, bytes_le, contains}
use nixdex.History.{
  VersionEntry, VersionHistory, Entries, header, max_history_bytes, check_entry, has_version,
  insert_version, record_entry, store, update_attr, record_version, write_lines, write_sidecar,
  open_sidecar,
}
use nixdex.History.Record.{IsHistory}
use nixdex.History.Builder.{IsBuilder, record_version-IsBuilder}
use nixdex.History.RoundTrip.{AreJson, open_sidecar-write_sidecar}

abbrev old_entry : VersionEntry
old_entry = record { version = codes "2.10"; commit = codes "aa"; date = codes "2020-01-01" }

abbrev new_entry : VersionEntry
new_entry = record { version = codes "2.12"; commit = codes "bb"; date = codes "2022-01-01" }

abbrev hello : VersionHistory
hello = record { attr = codes "hello"; versions = new_entry ∷ old_entry ∷ [] }

abbrev one_package : Entries
one_package = hello ∷ []

-- Recorded in the wrong order.
recorded :
    (record_version (codes "hello") new_entry ((record_version (codes "hello") old_entry []).0)).0
    ≡ one_package
unfolding record_version update_attr store record_entry check_entry has_version insert_version
    bytes_eq bytes_le
recorded = refl

hello-IsHistory : IsHistory (hello.versions)
unfolding check_entry has_version bytes_eq bytes_le
hello-IsHistory = record {
  newest_first = ((refl, tt), (tt, tt));
  distinct = (refl, (refl, tt));
  bounded = omega arith;
  checked = (refl, (refl, tt));
}

one_package-IsBuilder : IsBuilder one_package
one_package-IsBuilder = (hello-IsHistory, tt, tt)

record_version-IsBuilder_example :
    IsBuilder ((record_version (codes "vim") old_entry one_package).0)
record_version-IsBuilder_example =
    record_version-IsBuilder (codes "vim") old_entry one_package one_package-IsBuilder

abbrev one_json : VersionHistory → Bytes
one_json h = codes "{}"

abbrev one_history : Bytes → Option VersionHistory
one_history text = some hello

text_ne_nil : codes "{}" ≢ []
text_ne_nil e = cc

one_package-AreJson : AreJson one_json one_history one_package
unfolding contains
one_package-AreJson = (refl, refl, text_ne_nil, tt)

one_package_fits : length (header ++ write_lines one_json one_package) ≤ max_history_bytes
unfolding write_lines
one_package_fits = omega arith

open_sidecar-write_sidecar_example :
    (bytes : Bytes) × (write_sidecar one_json one_package ≡ ok bytes)
    × (open_sidecar one_history bytes ≡ ok one_package)
open_sidecar-write_sidecar_example =
    open_sidecar-write_sidecar one_json one_history one_package one_package-AreJson
      one_package-IsBuilder one_package_fits
