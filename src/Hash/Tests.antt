-- ===== src/Hash/Tests.antt =====
-- Tests of the sampled hash, and the witness of its theorem.
use mania.Base.{ℕ, List, [], ◌∷◌, ◌++◌, append-nil, append_assoc, length, ◌≡◌}
use mania.Base.Fault.{done, ◌>>=◌}
use mania.Hash.Sampled.{concat, sampled, tri_sha1-sampled}
use mania.Hash.TriSha1.{new_tri_sha1, update_each, finalize}

-- A hasher that keeps what it is fed.
abbrev keep : List ℕ → List ℕ
keep h = h

abbrev one_byte : ℕ → List ℕ
one_byte n = n ∷ []

abbrev three_chunks : List (List ℕ)
three_chunks = (1 ∷ 2 ∷ []) ∷ [] ∷ (3 ∷ []) ∷ []

tri_sha1-sampled_example :
    (update_each [] ◌++◌ keep one_byte three_chunks
        (new_tri_sha1 [] ◌++◌ keep one_byte (length (concat three_chunks)))
      >>= λ t. done (finalize [] ◌++◌ keep one_byte t))
    ≡ done
        (keep ((([] ++ sampled (concat three_chunks)) ++ one_byte (length (concat three_chunks)))))
tri_sha1-sampled_example =
    tri_sha1-sampled [] ◌++◌ keep one_byte append-nil append_assoc three_chunks
