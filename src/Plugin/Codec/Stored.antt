-- ===== src/Plugin/Codec/Stored.antt =====
-- When the results of an image fit the memory that `_setupResults` of pression/compressor/compressorRLE.ipp leaves them.
use native.Mathlib.Nat.{mul-le-mul_right}
use pression.Base.{
  ℕ, zero, suc, ◌+◌, ◌*◌, ◌/◌, ◌≤◌, ◌<◌, ◌≡◌, refl, arith, u64, true, List, [], ◌∷◌, length,
  length-take, length-drop, drop, Option-cases, inl, inr, some,
}
use pression.Base.Buffer.{slice}
use pression.Plugin.Types.{Format}
use pression.Plugin.Float.{Float32}
use pression.Plugin.Chunk.{Streams, compress_chunk}
use pression.Plugin.Codec.{
  Build, count_chunks, are_stored, start_index, chunk_size, max_chunk_size, compress_chunks,
}
use pression.Plugin.Codec.Reserve.{IsWithin, compress_chunk-IsWithin}

length-slice :
    {A : Type 0} (start n : ℕ) (xs part : List A) → slice start n xs ≡ some part → length part ≡ n
unfolding slice
length-slice start n xs part h =
    ground (arith, h, length-take n (drop start xs), length-drop start xs)

module _ (capacity : ℕ → List ℕ → ℕ) (size reserved : ℕ) where
  -- The memory of a result has room for so many components.
  abbrev pub IsRoom : ℕ → Type 0
  IsRoom n = (old : List ℕ) → n * size ≤ capacity reserved old

  are_stored-cons :
      (result : List ℕ) (results : List (List ℕ))
      → IsRoom (length result)
      → ((buffers : List (List ℕ)) → are_stored capacity size reserved results buffers ≡ true)
      → (buffers : List (List ℕ))
      → are_stored capacity size reserved (result ∷ results) buffers ≡ true
  unfolding are_stored
  are_stored-cons result results room rest [] = ground (arith, room [], rest [])
  are_stored-cons result results room rest (old ∷ buffers) = ground (arith, room old, rest buffers)

  shorter : (m n : ℕ) → m ≤ n → IsRoom n → IsRoom m
  shorter m n h room old = omega (arith, mul-le-mul_right size h, room old)

  are_stored-four :
      (s : Streams) (n : ℕ) (results : List (List ℕ))
      → IsWithin n s
      → IsRoom n
      → ((buffers : List (List ℕ)) → are_stored capacity size reserved results buffers ≡ true)
      → (buffers : List (List ℕ))
      → are_stored capacity size reserved (s.one ∷ s.two ∷ s.three ∷ s.four ∷ results) buffers
        ≡ true
  are_stored-four s n results w room rest =
      are_stored-cons s.one _ (shorter (length s.one) n w.one room) (
        are_stored-cons s.two _ (shorter (length s.two) n w.two room) (
          are_stored-cons s.three _ (shorter (length s.three) n w.three room)
            (are_stored-cons s.four results (shorter (length s.four) n w.four room) rest)))

  -- Twice the pixels of each chunk and one more are enough.
  pub compress_chunks-are_stored :
      (fl : Float32) (marker limit : ℕ) (format : Format) (n_pixels n_chunks k c : ℕ)
      (image : List ℕ) (results : List (List ℕ))
      → 2 ≤ limit
      → ((i : ℕ) → i < c + k → IsRoom (2 * chunk_size fl n_pixels n_chunks i + 1))
      → compress_chunks fl marker limit format n_pixels n_chunks k c image ≡ some results
      → (buffers : List (List ℕ)) → are_stored capacity size reserved results buffers ≡ true
  unfolding compress_chunks
  compress_chunks-are_stored fl marker limit format n_pixels n_chunks zero c image [] two room h
        buffers =
      unfold are_stored in refl
  compress_chunks-are_stored fl marker limit format n_pixels n_chunks zero c image (r ∷ rs) two room
        h buffers =
      absurd (ground (arith, h))
  compress_chunks-are_stored fl marker limit format n_pixels n_chunks (suc k) c image results two
        room h buffers =
      let part_of =
        slice (start_index fl n_pixels n_chunks c / 4) (chunk_size fl n_pixels n_chunks c) image in
      let rest_of = compress_chunks fl marker limit format n_pixels n_chunks k (c + 1) image in
      elim (Option-cases part_of) [
        | inl e ↦ absurd (ground (arith, e, h))
        | inr (part, e) ↦ elim (Option-cases rest_of) [
          | inl f ↦ absurd (ground (arith, e, f, h))
          | inr (rest, f) ↦
              let s = compress_chunk marker limit format part in
              let same : results ≡ s.one ∷ s.two ∷ s.three ∷ s.four ∷ rest =
                ground (arith, e, f, h) in
              let len = length-slice _ _ image part e in
              let later =
                compress_chunks-are_stored fl marker limit format n_pixels n_chunks k (c + 1) image
                  rest two (λ i p. room i (omega (arith, p))) f in
              let here : IsRoom (2 * length part + 1) = λ old. rw len (room c (omega arith) old) in
              rw same (
                are_stored-four s (2 * length part + 1) rest
                  (compress_chunk-IsWithin marker limit two format part) here later buffers)
        ]
      ]

-- The memory of the results of `n` pixels has room for twice the components of each chunk and one more.
abbrev pub HasRoom : Float32 → ℕ → Build → ℕ → Type 0
HasRoom fl pixel_size build n =
    let n_chunks = count_chunks build.processors 4 (u64 (n * pixel_size)) in
    (i : ℕ)
    → i < n_chunks / 4
    → IsRoom build.capacity (pixel_size / 4) (max_chunk_size (u64 (n * pixel_size)) n_chunks)
        (2 * chunk_size fl n n_chunks i + 1)

-- What lunchbox documents of `reserve`: the memory has at least the size.
abbrev pub Reserves : (ℕ → List ℕ → ℕ) → Type 0
Reserves capacity = (reserved : ℕ) (old : List ℕ) → reserved ≤ capacity reserved old
