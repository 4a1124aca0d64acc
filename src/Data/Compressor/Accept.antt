-- ===== src/Data/Compressor/Accept.antt =====
-- For which numbers of inputs `decompress` of pression/data/Compressor.cpp throws.
use pression.Base.{
  ℕ, ◌+◌, ◌^◌, ◌<◌, ◌≡◌, refl, arith, Bool, true, false, not, ◌&&◌, ltb, if◌then◌else◌, List, [],
  ◌∷◌, length, take, Option, none, some,
}
use pression.Data.Compressor.{
  Codec, State, Outcome, finished, thrown, fault, add_totals, conclude, count_rounds,
  decompress_parts, decompress_inputs, decompress,
}
use pression.Base.Buffer.{blit}
use pression.Rle.{◌>>=◌}
use pression.Data.Compressor.Count.{is_accepted, is_inconsistent-is_accepted}

-- What an exception leaves of the object.
abbrev pub left_behind : Outcome → Option State
left_behind (finished st out) = none
left_behind (thrown st) = some st
left_behind fault = none

left_behind-conclude :
    (codec : Codec) (st : State) (out : Option (List ℕ))
    → left_behind (conclude codec st out) ≡ none
left_behind-conclude codec st none = refl
left_behind-conclude codec st (some out) = refl

-- The choice that `decompress` makes of several inputs.
left_behind-chosen :
    (codec : Codec) (inconsistent : Bool) (st : State) (out : Option (List ℕ))
    → left_behind (if inconsistent then thrown st else conclude codec st out)
      ≡ (if inconsistent then some st else none)
left_behind-chosen codec true st out = refl
left_behind-chosen codec false st out = left_behind-conclude codec st out

-- `decompress` throws exactly if there are two inputs or more, and their number is neither the number of chunks that
-- `compress` makes of data of the size, nor one more, for a multiple of the chunk size, nor one less, for any other
-- size; and when it throws, the object has already counted the bytes. The size with a chunk more fits 64 bits.
pub decompress-is_accepted :
    (codec : Codec) (inputs : List (List ℕ)) (out : List ℕ) (size : ℕ) (st : State)
    (chunk_pos : 0 < codec.get_chunk_size) (small : size + codec.get_chunk_size < 2 ^ 64)
    → left_behind (decompress codec inputs out size st) ≡ (
        if ltb 1 (length inputs) && not (is_accepted codec chunk_pos size small (length inputs))
        then some (add_totals size inputs st)
        else none)
unfolding decompress decompress_inputs
decompress-is_accepted codec [] out size st chunk_pos small = refl
decompress-is_accepted codec (input ∷ []) out size st chunk_pos small =
    left_behind-conclude codec (add_totals size (input ∷ []) st)
      (codec.decompress_chunk input (length input) size >>= λ part. blit 0 part out)
decompress-is_accepted codec (input ∷ next ∷ inputs) out size st chunk_pos small =
    let all = input ∷ next ∷ inputs in
    let several : ltb 1 (length all) ≡ true = ground arith in
    rw (several, is_inconsistent-is_accepted codec chunk_pos size small (length all))
      (left_behind-chosen codec (not (is_accepted codec chunk_pos size small (length all)))
        (add_totals size all st)
        (decompress_parts codec size 0 (take (count_rounds (length all)) all) out))
