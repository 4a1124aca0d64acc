-- ===== src/Tests/Rle.antt =====
-- The run-length coding of one channel at concrete inputs.
use pression.Base.{ℕ, ◌≡◌, refl, arith, List, [], ◌∷◌, ◌++◌, length, some}
use pression.Rle.{start_reader, compress_channel, read_channel}
use pression.Rle.RoundTrip.{read_channel-compress_channel}

-- A short run, the marker, and a run that is longer than the largest component.
abbrev components : List ℕ
components = 1 ∷ 1 ∷ 66 ∷ 7 ∷ 7 ∷ 7 ∷ 7 ∷ 7 ∷ []

compressed_run : compress_channel 66 3 components ≡ 1 ∷ 1 ∷ 66 ∷ 66 ∷ 1 ∷ 66 ∷ 7 ∷ 3 ∷ 7 ∷ 7 ∷ []
unfolding compress_channel
compressed_run = refl

read_channel-compress_channel_example :
    (t : ℕ) × (read_channel 66 3
        (length components)
        (start_reader (compress_channel 66 3 components ++ (9 ∷ [])))
      ≡ some (components, record { token = t; left = 0; input = 9 ∷ [] }))
read_channel-compress_channel_example =
    read_channel-compress_channel 66 3 components (9 ∷ []) (omega arith)
