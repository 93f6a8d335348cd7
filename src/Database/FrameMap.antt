-- ===== src/Database/FrameMap.antt =====
-- crates/nixdex-core/src/database.rs: the frame map, the sidecar that has the compressed frame of each
-- package. The file is its bytes, those that were written when a write fails as well; that creating,
-- writing or reading the file itself fails is not modelled. Every other error is `Corrupt`.
use mathlib.Core.List.{append_assoc, append-nil}
use mathlib.Core.Path.{subst}
use nixdex.Prelude.{
  ℕ, zero, suc, ◌+◌, ◌*◌, ◌^◌, ◌<◌, ◌≡◌, ◌⊎◌, refl, sym, ◌∙◌, arith, Bool, true, false, not, some,
  List, [], ◌∷◌, ◌++◌, ◌==◌, ==_iff, ltb, leb, lt→ltb, le→leb, ltb→lt, if◌then◌else◌, length,
  length-append, Result, ok, err, ◌>>=◌, require, ok_or, Bool-cases, inl, inr,
}
use nixdex.Prelude.Bytes.{Bytes, codes, bytes_eq, bytes_eq_refl}
use nixdex.Prelude.Words.{
  u32_le, length-u32_le, get_range, get_range-append, from_u32_le, from_u32_le-u32_le,
}
use nixdex.Database.{Error, corrupt}
use nixdex.Index.{words_bytes}
use nixdex.Index.Postings.{length-words_bytes}

abbrev pub frame_map_magic : Bytes
frame_map_magic = codes "NFRM"

abbrev pub frame_map_version : ℕ
frame_map_version = 1

-- The file as it stands before the frames.
abbrev pub file_start : Bytes
file_start = frame_map_magic ++ u32_le frame_map_version

-- The loop over the map: the file with what was written before the loop ended, and the outcome.
unfoldable pub write_frames : ℕ → List ℕ → Bytes → Bytes × Result (Unit {0}) Error
write_frames frame_count [] file = (file, ok tt)
write_frames frame_count (frame ∷ frames) file =
    let rest = write_frames frame_count frames (file ++ u32_le frame) in
    if not (ltb frame frame_count) then (file, err corrupt) else rest

unfoldable pub write_frame_map : List ℕ → ℕ → Bytes × Result (Unit {0}) Error
write_frame_map frame_map frame_count =
    let package_count = length frame_map in
    if not (ltb package_count (2 ^ 32))
    then (file_start, err corrupt)
    else if not (ltb frame_count (2 ^ 32))
    then (file_start, err corrupt)
    else write_frames frame_count frame_map
        (file_start ++ (u32_le package_count ++ u32_le frame_count))

unfoldable pub read_u32_le : Bytes → ℕ → Result ℕ Error
read_u32_le bytes at = do
  _ ← require (ltb (at + 4) (2 ^ 64)) corrupt
  slice ← ok_or (get_range at (at + 4) bytes) corrupt
  ok_or (from_u32_le slice) corrupt

-- The loop `for i in 0..package_count`, `offset` being that of the next word.
unfoldable pub read_frames : ℕ → ℕ → Bytes → ℕ → Result (List ℕ) Error
read_frames zero frame_count bytes offset = ok []
read_frames (suc count) frame_count bytes offset = do
  frame ← read_u32_le bytes offset
  _ ← require (ltb frame frame_count) corrupt
  frames ← read_frames count frame_count bytes (offset + 4)
  ok (frame ∷ frames)

unfoldable pub read_frame_map : Bytes → Result (List ℕ) Error
read_frame_map bytes = do
  _ ← require (leb 16 (length bytes)) corrupt
  magic ← ok_or (get_range 0 4 bytes) corrupt
  _ ← require (bytes_eq magic frame_map_magic) corrupt
  version ← read_u32_le bytes 4
  _ ← require (version == frame_map_version) corrupt
  package_count ← read_u32_le bytes 8
  frame_count ← read_u32_le bytes 12
  _ ← require (length bytes == 16 + package_count * 4) corrupt
  read_frames package_count frame_count bytes 16

-- Whether each frame is one of the frames.
abbrev pub all_below : ℕ → List ℕ → Bool
all_below frame_count [] = true
all_below frame_count (frame ∷ frames) =
    if ltb frame frame_count then all_below frame_count frames else false

-- The frames before the first that is out of range.
abbrev pub take_below : ℕ → List ℕ → List ℕ
take_below frame_count [] = []
take_below frame_count (frame ∷ frames) =
    if ltb frame frame_count then frame ∷ take_below frame_count frames else []

take_below_all :
    (frame_count : ℕ) (frames : List ℕ)
    → all_below frame_count frames ≡ true
    → take_below frame_count frames ≡ frames
take_below_all frame_count [] h = refl
take_below_all frame_count (frame ∷ frames) h = ground (arith, h, take_below_all frame_count frames)

length-take_below :
    (frame_count : ℕ) (frames : List ℕ)
    → all_below frame_count frames ≡ false
    → length (take_below frame_count frames) < length frames
length-take_below frame_count [] h = cc h
length-take_below frame_count (frame ∷ frames) h =
    ground (arith, h, length-take_below frame_count frames)

write_frames-words_bytes :
    (frame_count : ℕ) (frames : List ℕ) (file : Bytes)
    → write_frames frame_count frames file ≡ (
      file ++ words_bytes (take_below frame_count frames),
      if all_below frame_count frames then ok tt else err corrupt,
    )
unfolding write_frames
write_frames-words_bytes frame_count [] file = rw append-nil refl
write_frames-words_bytes frame_count (frame ∷ frames) file =
    elim (Bool-cases (ltb frame frame_count)) [
      | inl e ↦
          rw
            (
              e,
              write_frames-words_bytes frame_count frames (file ++ u32_le frame),
              append_assoc file (u32_le frame) (words_bytes (take_below frame_count frames)),
            )
            refl
      | inr e ↦ rw (e, append-nil) refl
    ]

read_u32_le-u32_le :
    (before after : Bytes) (n at : ℕ)
    → at ≡ length before
    → n < 2 ^ 32
    → at + 4 < 2 ^ 64
    → read_u32_le (before ++ (u32_le n ++ after)) at ≡ ok n
unfolding read_u32_le
read_u32_le-u32_le before after n at e h fits =
    let fits_in : ltb (length before + 4) (2 ^ 64) ≡ true = lt→ltb _ _ (omega (arith, e, fits)) in
    let found : get_range (length before) (length before + 4) (before ++ (u32_le n ++ after))
        ≡ some (u32_le n) =
      get_range-append before (u32_le n) after (length before + 4)
        (omega (arith, length-u32_le n)) in
    rw (e, fits_in, found, from_u32_le-u32_le n h) refl

read_frames-words_bytes :
    (frames : List ℕ) (frame_count : ℕ) (before : Bytes) (offset : ℕ)
    → offset ≡ length before
    → frame_count < 2 ^ 32
    → all_below frame_count frames ≡ true
    → offset + 4 * length frames < 2 ^ 64
    → read_frames (length frames) frame_count (before ++ words_bytes frames) offset ≡ ok frames
unfolding read_frames
read_frames-words_bytes [] frame_count before offset e small all fits = refl
read_frames-words_bytes (frame ∷ frames) frame_count before offset e small all fits =
    let inside : ltb frame frame_count ≡ true = ground (arith, all) in
    let rest : all_below frame_count frames ≡ true = ground (arith, all) in
    let lt = ltb→lt frame frame_count inside in
    let len = length-append before (u32_le frame) in
    let four = length-u32_le frame in
    let later : read_frames (length frames) frame_count
          ((before ++ u32_le frame) ++ words_bytes frames) (offset + 4)
        ≡ ok frames =
      read_frames-words_bytes frames frame_count (before ++ u32_le frame) (offset + 4) (omega arith)
        small rest (omega arith) in
    let later' =
      subst (λ u. read_frames (length frames) frame_count u (offset + 4) ≡ ok frames)
        (append_assoc before (u32_le frame) (words_bytes frames)) later in
    rw
      (
        read_u32_le-u32_le before (words_bytes frames) frame offset e (omega (arith, lt, small))
            (omega arith),
        inside,
        later',
      )
      refl

length-upto16 : (n frame_count : ℕ) → length (file_start ++ (u32_le n ++ u32_le frame_count)) ≡ 16
length-upto16 n frame_count = omega (
  arith,
  length-append file_start (u32_le n ++ u32_le frame_count),
  length-append (u32_le n) (u32_le frame_count),
  length-u32_le n,
  length-u32_le frame_count,
  length-u32_le frame_map_version,
)

-- The header, read back from before any body; then the length is checked and the frames are read.
read_frame_map_header :
    (n frame_count : ℕ) (body : Bytes)
    → n < 2 ^ 32
    → frame_count < 2 ^ 32
    → read_frame_map ((file_start ++ (u32_le n ++ u32_le frame_count)) ++ body) ≡ (
        require (16 + length body == 16 + n * 4) corrupt >>= λ u.
        read_frames n frame_count ((file_start ++ (u32_le n ++ u32_le frame_count)) ++ body) 16)
unfolding read_frame_map
read_frame_map_header n frame_count body few small =
    let upto12 = file_start ++ u32_le n in
    let upto16 = file_start ++ (u32_le n ++ u32_le frame_count) in
    let bytes = upto16 ++ body in
    let at4 : frame_map_magic
          ++ (u32_le frame_map_version ++ ((u32_le n ++ u32_le frame_count) ++ body))
        ≡ bytes =
      simp append_assoc in
    let at8 : file_start ++ (u32_le n ++ (u32_le frame_count ++ body)) ≡ bytes =
      simp append_assoc in
    let at12 : upto12 ++ (u32_le frame_count ++ body) ≡ bytes = simp append_assoc in
    let len8 : length file_start ≡ 8 = omega (arith, length-u32_le frame_map_version) in
    let len12 : length upto12 ≡ 12 =
      omega (arith, len8, length-append file_start (u32_le n), length-u32_le n) in
    let len16 = length-upto16 n frame_count in
    let total : length bytes ≡ 16 + length body = omega (arith, len16, length-append upto16 body) in
    let long : leb 16 (length bytes) ≡ true = le→leb _ _ (omega (arith, total)) in
    let magic : get_range 0 4 bytes ≡ some frame_map_magic =
      subst (λ u. get_range 0 4 u ≡ some frame_map_magic) at4
        (get_range-append [] frame_map_magic
          (u32_le frame_map_version ++ ((u32_le n ++ u32_le frame_count) ++ body)) 4 refl) in
    let version : read_u32_le bytes 4 ≡ ok frame_map_version =
      subst (λ u. read_u32_le u 4 ≡ ok frame_map_version) at4
        (read_u32_le-u32_le frame_map_magic ((u32_le n ++ u32_le frame_count) ++ body)
          frame_map_version 4 refl (omega arith) (omega arith)) in
    let count : read_u32_le bytes 8 ≡ ok n =
      subst (λ u. read_u32_le u 8 ≡ ok n) at8
        (read_u32_le-u32_le file_start (u32_le frame_count ++ body) n 8 (sym len8) few
          (omega arith)) in
    let frame_n : read_u32_le bytes 12 ≡ ok frame_count =
      subst (λ u. read_u32_le u 12 ≡ ok frame_count) at12
        (read_u32_le-u32_le upto12 body frame_count 12 (sym len12) small (omega arith)) in
    rw (long, magic, bytes_eq_refl frame_map_magic, version, count, frame_n, total) refl

-- What the file holds in the end, when the two numbers fit.
abbrev pub file_of : List ℕ → ℕ → List ℕ → Bytes
file_of frame_map frame_count frames =
    (file_start ++ (u32_le (length frame_map) ++ u32_le frame_count)) ++ words_bytes frames

-- For fewer than 2^32 packages and frames. When each package's frame is one of the frames, the write
-- succeeds and the file is read back as the map. Otherwise the write fails with `Corrupt`, the file is
-- left with the header and the frames before the first that is out of range, and reading it fails with
-- `Corrupt`.
pub read_frame_map-write_frame_map :
    (frame_map : List ℕ) (frame_count : ℕ)
    → length frame_map < 2 ^ 32
    → frame_count < 2 ^ 32
    → ((all_below frame_count frame_map ≡ true)
        × ((write_frame_map frame_map frame_count).1 ≡ ok tt)
        × (read_frame_map (write_frame_map frame_map frame_count).0 ≡ ok frame_map))
      ⊎ ((all_below frame_count frame_map ≡ false)
          × ((write_frame_map frame_map frame_count).1 ≡ err corrupt)
          × ((write_frame_map frame_map frame_count).0
              ≡ file_of frame_map frame_count (take_below frame_count frame_map))
          × (read_frame_map (write_frame_map frame_map frame_count).0 ≡ err corrupt))
unfolding write_frame_map
read_frame_map-write_frame_map frame_map frame_count few small =
    let n = length frame_map in
    let below = take_below frame_count frame_map in
    let upto16 = file_start ++ (u32_le n ++ u32_le frame_count) in
    let len16 = length-upto16 n frame_count in
    let bytes = length-words_bytes below in
    rw (lt→ltb _ _ few, lt→ltb _ _ small, write_frames-words_bytes frame_count frame_map upto16)
      (elim (Bool-cases (all_below frame_count frame_map)) [
        | inl e ↦
            let same = take_below_all frame_count frame_map e in
            let exact : (16 + length (words_bytes frame_map) == 16 + n * 4) ≡ true =
              (==_iff _ _).1 (omega (arith, length-words_bytes frame_map)) in
            let frames_read : read_frames n frame_count (upto16 ++ words_bytes frame_map) 16
                ≡ ok frame_map =
              read_frames-words_bytes frame_map frame_count upto16 16 (sym len16) small e
                (omega (arith, few)) in
            let back : read_frame_map (upto16 ++ words_bytes frame_map) ≡ ok frame_map =
              read_frame_map_header n frame_count (words_bytes frame_map) few small
              ∙ rw (exact, frames_read) refl in
            rw (e, same) (inl (refl, refl, back))
        | inr e ↦
            let short : (16 + length (words_bytes below) == 16 + n * 4) ≡ false =
              ground (arith, bytes, length-take_below frame_count frame_map e) in
            let refused : read_frame_map (upto16 ++ words_bytes below) ≡ err corrupt =
              read_frame_map_header n frame_count (words_bytes below) few small ∙ rw short refl in
            rw e (inr (refl, refl, refl, refused))
      ])
