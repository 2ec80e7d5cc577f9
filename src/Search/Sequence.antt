-- ===== src/Search/Sequence.antt =====
-- src/LinearSequence.cpp: the numbers that were drawn, by position. `seq_map_` is an association list
-- without two entries at one position.
use hipsmith.Prelude.{ℕ, List, [], ◌∷◌, ◌==◌, if◌then◌else◌, length}

unfoldable pub add_number : List (ℕ × ℕ) → ℕ → ℕ → List (ℕ × ℕ)
add_number [] v k = (k, v) ∷ []
add_number (b ∷ seq_map) v k =
    let rest = add_number seq_map v k in if b.0 == k then (k, v) ∷ seq_map else b ∷ rest

-- `seq_map_[pos]`: a missing number is 0, and there is an entry for it afterwards.
unfoldable pub get_number_by_pos : List (ℕ × ℕ) → ℕ → ℕ × List (ℕ × ℕ)
get_number_by_pos [] pos = (0, (pos, 0) ∷ [])
get_number_by_pos (b ∷ seq_map) pos =
    let rest = get_number_by_pos seq_map pos in
    if b.0 == pos then (b.1, b ∷ seq_map) else (rest.0, b ∷ rest.1)

unfoldable pub sequence_length : List (ℕ × ℕ) → ℕ
sequence_length seq_map = length seq_map
