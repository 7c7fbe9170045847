-- ===== src/Hash/Sampled.antt =====
-- mania/src/core/crypto/tri_sha1.rs: the hash does not depend on the chunks in which a file is read.
use mania.Base.{
  ℕ, ◌+◌, ◌-◌, ◌/◌, ◌≤◌, min, max, List, [], ◌∷◌, ◌++◌, append-nil, append_assoc, if◌then◌else◌,
  ltb, ltb→lt, ltb→le, le→ltb, length, take, drop, length-append, Bool-cases, ◌≡◌, ◌∙◌, sym, ap,
  ap₂, refl, inl, inr, arith,
}
use mania.Base.Fault.{done, ◌>>=◌}
use mania.Base.Slices.{slice_in_range}
use mania.Hash.TriSha1.{
  TriSha1, ranges_of, new_tri_sha1, update_range, update_ranges, update, finalize, update_each,
}
use mania.Hash.Windows.{take_past, drop_past, take_nil, window, piece, window-append}

abbrev pub concat : List (List ℕ) → List ℕ
concat [] = []
concat (chunk ∷ chunks) = chunk ++ concat chunks

-- The bytes that are hashed: small files whole, of others the first, the middle and the last 10 MiB.
abbrev pub sampled : List ℕ → List ℕ
sampled file =
    if ltb (length file) 31457280
    then file
    else take 10485760 file
      ++ (take 10485760 (drop (length file / 2 - 5242880) file)
          ++ take 10485760 (drop (length file - 10485760) file))

abbrev windows : List (ℕ × ℕ) → List ℕ → List ℕ
windows [] xs = []
windows (range ∷ ranges) xs = window range xs ++ windows ranges xs

abbrev pieces : List (ℕ × ℕ) → ℕ → List ℕ → List ℕ
pieces [] o d = []
pieces (range ∷ ranges) o d = piece o d range ++ pieces ranges o d

-- The ranges come in their order, from `b` on, and do not meet.
abbrev Ascending : ℕ → List (ℕ × ℕ) → Type 0
Ascending b [] = Unit {0}
Ascending b (range ∷ ranges) =
    (b ≤ range.0) × (range.0 ≤ range.1 + 1) × Ascending (range.1 + 1) ranges

windows_before :
    (b : ℕ) (ranges : List (ℕ × ℕ)) (xs : List ℕ)
    → Ascending b ranges
    → length xs ≤ b
    → windows ranges xs ≡ []
windows_before b [] xs a n = refl
windows_before b ((rs, re) ∷ ranges) xs (l, m, a) n =
    rw (drop_past rs xs (omega arith), take_nil (re + 1 - rs))
      (windows_before (re + 1) ranges xs a (omega arith))

-- Either nothing of the later ranges is there yet, or the range has all that it gets.
swap_parts :
    (rs re : ℕ) (ranges : List (ℕ × ℕ)) (xs d : List ℕ)
    → Ascending (re + 1) ranges
    → piece (length xs) d (rs, re) ++ windows ranges xs
      ≡ windows ranges xs ++ piece (length xs) d (rs, re)
swap_parts rs re ranges xs d a = elim (Bool-cases (ltb (length xs) (re + 1))) [
  | inl before ↦
      rw (windows_before (re + 1) ranges xs a (omega (arith, ltb→lt (length xs) (re + 1) before)))
        (append-nil (piece (length xs) d (rs, re)))
  | inr past ↦
      let full = ltb→le (length xs) (re + 1) past in
      rw (le→ltb (max (length xs) rs) (min (length xs + length d) (re + 1)) (omega (arith, full)))
        (sym (append-nil (windows ranges xs)))
]

windows-append :
    (b : ℕ) (ranges : List (ℕ × ℕ)) (xs d : List ℕ)
    → Ascending b ranges
    → windows ranges xs ++ pieces ranges (length xs) d ≡ windows ranges (xs ++ d)
windows-append b [] xs d a = refl
windows-append b ((rs, re) ∷ ranges) xs d (l, m, a) =
    let w = window (rs, re) xs in
    let p = piece (length xs) d (rs, re) in
    let ws = windows ranges xs in
    let ps = pieces ranges (length xs) d in
    append_assoc w ws (p ++ ps)
    ∙ (ap (λ t. w ++ t)
          (sym (append_assoc ws p ps)
            ∙ (ap (λ t. t ++ ps) (sym (swap_parts rs re ranges xs d a)) ∙ append_assoc p ws ps))
        ∙ (sym (append_assoc w p (ws ++ ps))
            ∙ ap₂ (λ (s t : List ℕ). s ++ t) (sym (window-append rs re xs d))
                (windows-append (re + 1) ranges xs d a)))

ranges_of-Ascending : (n : ℕ) → Ascending 0 (ranges_of n)
unfolding ranges_of
ranges_of-Ascending n = elim (Bool-cases (ltb n 31457280)) [
  | inl small ↦ rw (small) (omega arith, omega arith, tt)
  | inr big ↦
      let size = ltb→le n 31457280 big in
      rw (big) (
        omega arith,
        omega arith,
        (omega (arith, size), omega (arith, size), (omega (arith, size), omega (arith, size), tt)),
      )
]

windows-sampled : (file : List ℕ) → windows (ranges_of (length file)) file ≡ sampled file
unfolding ranges_of
windows-sampled file = elim (Bool-cases (ltb (length file) 31457280)) [
  | inl small ↦ rw (small) (
      append-nil (take (length file + 1 - 0) file)
      ∙ take_past (length file + 1 - 0) file (omega arith))
  | inr big ↦
      let size = ltb→le (length file) 31457280 big in
      let n = length file in
      let middle : n / 2 + 5242879 + 1 - (n / 2 - 5242880) ≡ 10485760 = omega (arith, size) in
      let last : n - 1 + 1 - (n - 10485760) ≡ 10485760 = omega (arith, size) in
      rw (big) (
        rw (middle, last)
          (ap (λ t. take 10485760 file ++ (take 10485760 (drop (n / 2 - 5242880) file) ++ t))
            (append-nil (take 10485760 (drop (n - 10485760) file)))))
]

module _ {H : Type 0} (start : H) (feed : H → List ℕ → H) (digest : H → List ℕ)
    (to_ne_bytes : ℕ → List ℕ) (feed_nil : (h : H) → feed h [] ≡ h)
    (feed-append : (h : H) (xs ys : List ℕ) → feed (feed h xs) ys ≡ feed h (xs ++ ys)) where
  update_range_lem :
      (o : ℕ) (d : List ℕ) (rs re : ℕ) (h : H)
      → update_range start feed digest to_ne_bytes o d (rs, re) h
        ≡ done (feed h (piece o d (rs, re)))
  unfolding update_range
  update_range_lem o d rs re h = elim (Bool-cases (ltb (max o rs) (min (o + length d) (re + 1)))) [
    | inl some_bytes ↦
        let lt = ltb→lt (max o rs) (min (o + length d) (re + 1)) some_bytes in
        let size : min (o + length d) (re + 1) - o - (max o rs - o)
            ≡ min (o + length d) (re + 1) - max o rs =
          omega (arith, lt) in
        rw
          (
            some_bytes,
            slice_in_range (max o rs - o) (min (o + length d) (re + 1) - o) d (omega (arith, lt))
                (omega arith),
            size,
          )
          refl
    | inr no_bytes ↦ rw (no_bytes, feed_nil h) refl
  ]

  update_ranges_lem :
      (o : ℕ) (d : List ℕ) (ranges : List (ℕ × ℕ)) (h : H)
      → update_ranges start feed digest to_ne_bytes o d ranges h ≡ done (feed h (pieces ranges o d))
  unfolding update_ranges
  update_ranges_lem o d [] h = rw (feed_nil h) refl
  update_ranges_lem o d ((rs, re) ∷ ranges) h = rw (update_range_lem o d rs re h) (
      update_ranges_lem o d ranges (feed h (piece o d (rs, re)))
      ∙ ap (λ h. done h) (feed-append h (piece o d (rs, re)) (pieces ranges o d)))

  -- What has been hashed once the bytes `xs` of a file are read.
  abbrev after_bytes : ℕ → List (ℕ × ℕ) → List ℕ → TriSha1 H
  after_bytes file_size ranges xs = record {
    hasher = feed start (windows ranges xs);
    offset = length xs;
    file_size = file_size;
    ranges = ranges;
  }

  update_each_lem :
      (file_size b : ℕ) (ranges : List (ℕ × ℕ)) (chunks : List (List ℕ)) (xs : List ℕ)
      → Ascending b ranges
      → update_each start feed digest to_ne_bytes chunks (after_bytes file_size ranges xs)
        ≡ done (after_bytes file_size ranges (xs ++ concat chunks))
  unfolding update_each update
  update_each_lem n b ranges [] xs a = rw (append-nil xs) refl
  update_each_lem n b ranges (d ∷ chunks) xs a =
      rw
        (
          update_ranges_lem (length xs) d ranges (feed start (windows ranges xs)),
          feed-append start (windows ranges xs) (pieces ranges (length xs) d),
          windows-append b ranges xs d a,
          sym (length-append xs d),
        )
        (update_each_lem n b ranges chunks (xs ++ d) a
          ∙ ap (λ t. done (after_bytes n ranges t)) (append_assoc xs d (concat chunks)))

  new_lem :
      (n b : ℕ)
      → Ascending b (ranges_of n)
      → new_tri_sha1 start feed digest to_ne_bytes n ≡ after_bytes n (ranges_of n) []
  unfolding new_tri_sha1
  new_lem n b a =
      let none_read : feed start (windows (ranges_of n) []) ≡ start =
        ap (feed start) (windows_before b (ranges_of n) [] a (omega arith)) ∙ feed_nil start in
      rw (none_read) refl

  finalized :
      (n : ℕ) (chunks : List (List ℕ)) (b : ℕ)
      → Ascending b (ranges_of n)
      → (update_each start feed digest to_ne_bytes chunks
            (new_tri_sha1 start feed digest to_ne_bytes n)
          >>= λ t. done (finalize start feed digest to_ne_bytes t))
        ≡ done (digest (feed (feed start (windows (ranges_of n) (concat chunks))) (to_ne_bytes n)))
  unfolding finalize
  finalized n chunks b a = rw (new_lem n b a, update_each_lem n b (ranges_of n) chunks [] a) refl

  -- However a file is cut into chunks, no slice is out of range, and the hash is that of the sampled
  -- bytes, a file below 30 MiB whole, of a larger one the first, the middle and the last 10 MiB, with
  -- the eight bytes of its size behind them. The hasher goes on where it stopped.
  pub tri_sha1-sampled :
      (chunks : List (List ℕ))
      → (update_each start feed digest to_ne_bytes chunks
            (new_tri_sha1 start feed digest to_ne_bytes (length (concat chunks)))
          >>= λ t. done (finalize start feed digest to_ne_bytes t))
        ≡ done (
            digest
              (feed (feed start (sampled (concat chunks))) (to_ne_bytes (length (concat chunks)))))
  tri_sha1-sampled chunks =
      let file = concat chunks in
      finalized (length file) chunks 0 (ranges_of-Ascending (length file))
      ∙ ap (λ t. done (digest (feed (feed start t) (to_ne_bytes (length file)))))
          (windows-sampled file)
