-- ===== src/Hash/TriSha1.antt =====
-- mania/src/core/crypto/tri_sha1.rs: up to three ranges of a file are hashed as it is read in chunks.
use mania.Base.{ℕ, ◌+◌, ◌-◌, ◌/◌, min, max, List, [], ◌∷◌, if◌then◌else◌, ltb, length}
use mania.Base.Fault.{Fault, done, ◌>>=◌}
use mania.Base.Slices.{slice}

pub record TriSha1 (H : Type 0) : Type 0 where
  pub hasher : H
  pub offset : ℕ
  pub file_size : ℕ
  -- the first and the last byte of each range
  pub ranges : List (ℕ × ℕ)

unfoldable pub ranges_of : ℕ → List (ℕ × ℕ)
ranges_of file_size =
    if ltb file_size 31457280
    then (0, file_size) ∷ []
    else (0, 10485759)
      ∷ (file_size / 2 - 5242880, file_size / 2 + 5242879)
      ∷ (file_size - 10485760, file_size - 1)
      ∷ []

-- The hasher of the sha1 crate, and the bytes of a u64 in the order of the machine.
module _ {H : Type 0} (start : H) (feed : H → List ℕ → H) (digest : H → List ℕ)
    (to_ne_bytes : ℕ → List ℕ) where
  unfoldable pub new_tri_sha1 : ℕ → TriSha1 H
  unfolding ranges_of
  new_tri_sha1 file_size = record {
    hasher = start;
    offset = 0;
    file_size = file_size;
    ranges = ranges_of file_size;
  }

  -- The part of `bytes`, which start at `offset`, that lies in the range.
  unfoldable pub update_range : ℕ → List ℕ → ℕ × ℕ → H → Fault H
  unfolding slice
  update_range offset bytes range hasher =
      let from = max offset range.0 in
      let to = min (offset + length bytes) (range.1 + 1) in
      if ltb from to
      then slice (from - offset) (to - offset) bytes >>= (λ part. done (feed hasher part))
      else done hasher

  unfoldable pub update_ranges : ℕ → List ℕ → List (ℕ × ℕ) → H → Fault H
  unfolding update_range
  update_ranges offset bytes [] hasher = done hasher
  update_ranges offset bytes (range ∷ ranges) hasher =
      update_range offset bytes range hasher >>= update_ranges offset bytes ranges

  unfoldable pub update : List ℕ → TriSha1 H → Fault (TriSha1 H)
  unfolding update_ranges
  update bytes t = update_ranges t.offset bytes t.ranges t.hasher >>= λ hasher.
      done (record t { hasher = hasher; offset = t.offset + length bytes })

  unfoldable pub finalize : TriSha1 H → List ℕ
  finalize t = digest (feed t.hasher (to_ne_bytes t.file_size))

  -- One call for each chunk.
  unfoldable pub update_each : List (List ℕ) → TriSha1 H → Fault (TriSha1 H)
  unfolding update
  update_each [] t = done t
  update_each (chunk ∷ chunks) t = update chunk t >>= update_each chunks
