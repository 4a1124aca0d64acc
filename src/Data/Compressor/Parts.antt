-- ===== src/Data/Compressor/Parts.antt =====
-- The loops of a lossless compressor over the chunks: what the one makes the other gives back.
use native.Mathlib.Nat.{mul-le-mul_right}
use mathlib.Core.Path.{subst}
use pression.Base.{
  ℕ, suc, ◌+◌, ◌-◌, ◌*◌, ◌^◌, ◌≤◌, ◌<◌, min, ◌≡◌, refl, sym, ap, ap₂, ◌∙◌, arith, Bool, true, List,
  [], ◌∷◌, ◌++◌, append-nil, append_assoc, length, length-append, length-take, length-drop, take,
  drop, take-append-drop, some,
}
use pression.Base.Buffer.{slice_behind, blit_behind, drop-drop}
use pression.Data.Word.{AllBelow, AllBelow-take, AllBelow-drop}
use pression.Data.Compressor.{
  Codec, part_start, part_size, store_chunk, compress_parts, decompress_parts,
}

-- What the virtual methods promise: a chunk of bytes is given back, whatever the result held.
pub record IsLossless (codec : Codec) : Type 0 where
  pub given_back :
      (bytes old : List ℕ)
      → AllBelow 256 bytes
      → let input = codec.compress_chunk bytes (length bytes) old in
        codec.decompress_chunk input (length input) (length bytes) ≡ some bytes
  pub chunk_pos : 0 < codec.get_chunk_size

-- Every result fits its memory.
abbrev pub AreStored : (ℕ → List ℕ → ℕ) → Codec → Type 0
AreStored capacity codec =
    (bytes old : List ℕ)
    → AllBelow 256 bytes
    → length (codec.compress_chunk bytes (length bytes) old)
      ≤ capacity (codec.get_compress_bound (length bytes)) old

-- Both for chunks of the sizes that are accepted, which those of the codec are, but for empty ones.
pub record IsLosslessOn (accepts : ℕ → Bool) (capacity : ℕ → List ℕ → ℕ) (codec : Codec)
    : Type 0 where
  pub given_back :
      (bytes old : List ℕ)
      → AllBelow 256 bytes
      → accepts (length bytes) ≡ true
      → let input = codec.compress_chunk bytes (length bytes) old in
        codec.decompress_chunk input (length input) (length bytes) ≡ some bytes
  pub chunk_pos : 0 < codec.get_chunk_size
  pub stored :
      (bytes old : List ℕ)
      → AllBelow 256 bytes
      → accepts (length bytes) ≡ true
      → length (codec.compress_chunk bytes (length bytes) old)
        ≤ capacity (codec.get_compress_bound (length bytes)) old
  pub chunks_accepted : (k : ℕ) → 0 < k → k ≤ codec.get_chunk_size → accepts k ≡ true

pub IsLossless-IsLosslessOn :
    (capacity : ℕ → List ℕ → ℕ) (codec : Codec)
    → IsLossless codec
    → AreStored capacity codec
    → IsLosslessOn (λ n. true) capacity codec
IsLossless-IsLosslessOn capacity codec h room = record {
  given_back = λ bytes old a accepted. h.given_back bytes old a;
  chunk_pos = h.chunk_pos;
  stored = λ bytes old a accepted. room bytes old a;
  chunks_accepted = λ k pos le. refl;
}

module _ (chunk size : ℕ) (small : size + chunk < 2 ^ 64) where
  -- Of a chunk that starts inside of the data, nothing wraps.
  pub part_start-exact : (i : ℕ) → i * chunk < size → part_start chunk i ≡ i * chunk
  unfolding part_start
  part_start-exact i h = omega arith

  pub part_size-exact :
      (i : ℕ) → i * chunk < size → part_size chunk size i ≡ min chunk (size - i * chunk)
  unfolding part_size part_start
  part_size-exact i h = omega arith

-- The output behind a part and all that follows it.
joined :
    (m : ℕ) (after done out : List ℕ)
    → ((done ++ take m after) ++ drop m after)
        ++ drop (length (drop m after)) (drop (length (take m after)) out)
      ≡ (done ++ after) ++ drop (length after) out
joined m after done out =
    ap₂ ◌++◌ (append_assoc done (take m after) (drop m after) ∙ ap (λ t. done ++ t) whole) (
      sym (drop-drop (length (take m after)) (length (drop m after)) out)
      ∙ ap (λ t. drop t out) size)
  where
    whole : take m after ++ drop m after ≡ after
    whole = take-append-drop m after

    size : length (take m after) + length (drop m after) ≡ length after
    size = sym (length-append (take m after) (drop m after)) ∙ ap length whole

module _ (accepts : ℕ → Bool) (capacity : ℕ → List ℕ → ℕ) (codec : Codec)
    (lossless : IsLosslessOn accepts capacity codec) where
  pub store_chunk-stored :
      (part : List ℕ) (m : ℕ) (old : List ℕ)
      → length part ≡ m
      → AllBelow 256 part
      → accepts m ≡ true
      → store_chunk codec capacity part m old ≡ some (codec.compress_chunk part m old)
  unfolding store_chunk
  store_chunk-stored part m old e a accepted =
      let fits = lossless.stored part old a (ap accepts e ∙ accepted) in
      let room : length (codec.compress_chunk part m old)
          ≤ capacity (codec.get_compress_bound m) old =
        subst
          (λ k.
            length (codec.compress_chunk part k old) ≤ capacity (codec.get_compress_bound k) old)
          e fits in
      ground (arith, room)

module _ (accepts : ℕ → Bool) (capacity : ℕ → List ℕ → ℕ) (codec : Codec)
    (lossless : IsLosslessOn accepts capacity codec) (size n : ℕ)
    (small : size + codec.get_chunk_size < 2 ^ 64) (enough : size ≤ n * codec.get_chunk_size)
    (tight : n * codec.get_chunk_size < size + codec.get_chunk_size) where
  abbrev chunk : ℕ
  chunk = codec.get_chunk_size

  starts_inside : (i : ℕ) → i < n → i * chunk < size
  starts_inside i h = omega (arith, mul-le-mul_right chunk h, tight)

  -- One round of `compress`, and of `decompress`.
  compress_round :
      (i : ℕ) (old : List ℕ) (olds : List (List ℕ)) (before after : List ℕ) (rs : List (List ℕ))
      → part_start chunk i ≡ length before
      → part_size chunk size i ≤ length after
      → AllBelow 256 (take (part_size chunk size i) after)
      → length (take (part_size chunk size i) after) ≡ part_size chunk size i
      → accepts (part_size chunk size i) ≡ true
      → compress_parts codec capacity (before ++ after) size (i + 1) olds ≡ some rs
      → let m = part_size chunk size i in
        compress_parts codec capacity (before ++ after) size i (old ∷ olds)
        ≡ some (codec.compress_chunk (take m after) m old ∷ rs)
  unfolding compress_parts
  compress_round i old olds before after rs b h a len accepted p =
      let m = part_size chunk size i in
      rw
        (
          slice_behind before after (part_start chunk i) m b h,
          p,
          store_chunk-stored accepts capacity codec lossless (take m after) m old len a accepted,
        )
        refl

  decompress_round :
      (i : ℕ) (part old done out : List ℕ) (rs : List (List ℕ)) {result : List ℕ}
      → length part ≡ part_size chunk size i
      → part_start chunk i ≡ length done
      → length part ≤ length out
      → AllBelow 256 part
      → accepts (length part) ≡ true
      → decompress_parts codec size (i + 1) rs ((done ++ part) ++ drop (length part) out)
        ≡ some result
      → decompress_parts codec size i
          (codec.compress_chunk part (part_size chunk size i) old ∷ rs)
          (done ++ out)
        ≡ some result
  unfolding decompress_parts
  decompress_round i part old done out rs e b h a accepted p =
      rw
        (
          sym e,
          lossless.given_back part old a accepted,
          blit_behind done out part (part_start chunk i) b h,
          p,
        )
        refl

  -- The chunks from `i` on, with the data and the output each in two parts: in front of the chunk
  -- `i`, and behind it.
  pub parts_round_trip :
      (olds : List (List ℕ)) (i : ℕ) (before after done out : List ℕ)
      → i + length olds ≡ n
      → length before ≡ min (i * chunk) size
      → length done ≡ length before
      → size ≡ length before + length after
      → length after ≤ length out
      → AllBelow 256 after
      → (rs : List (List ℕ)) × (compress_parts codec capacity (before ++ after) size i olds
          ≡ some rs)
        × (length rs ≡ length olds)
        × (decompress_parts codec size i rs (done ++ out)
            ≡ some ((done ++ after) ++ drop (length after) out))
  parts_round_trip [] i before [] done out e b d s h a =
      ([], unfold compress_parts in refl, refl, rw append-nil (unfold decompress_parts in refl))
  parts_round_trip [] i before (x ∷ after) done out e b d s h a =
      let t : i ≡ n = omega arith in absurd (omega (arith, enough, ap (λ k. k * chunk) t))
  parts_round_trip (old ∷ olds) i before after done out e b d s h a =
      let inside = starts_inside i (omega arith) in
      let m = part_size chunk size i in
      let exact = part_size-exact chunk size small i inside in
      let start = part_start-exact chunk size small i inside in
      let part = take m after in
      let behind = drop m after in
      let whole : part ++ behind ≡ after = take-append-drop m after in
      let fits : m ≤ length after = omega (arith, exact) in
      let len : length part ≡ m = omega (arith, length-take m after, fits) in
      let accepted =
        lossless.chunks_accepted (length part) (omega (arith, len, exact, inside))
          (omega (arith, len, exact)) in
      let (rs, p, q, r) =
        parts_round_trip olds (i + 1) (before ++ part) behind (done ++ part)
          (drop (length part) out) (omega arith)
          (omega (arith, length-append before part, len, exact))
          (omega (arith, length-append before part, length-append done part))
          (omega (arith, length-append before part, length-drop m after, len, fits))
          (omega (arith, length-drop m after, length-drop (length part) out, len))
          (AllBelow-drop 256 m after a) in
      (
        codec.compress_chunk part m old ∷ rs,
        compress_round i old olds before after rs (omega (arith, start)) fits
            (AllBelow-take 256 m after a) len (ap accepts (sym len) ∙ accepted)
            (ap (λ t. compress_parts codec capacity t size (i + 1) olds)
                (sym (append_assoc before part behind ∙ ap (λ t. before ++ t) whole))
              ∙ p),
        ap suc q,
        decompress_round i part old done out rs len (omega (arith, start)) (omega (arith, len))
            (AllBelow-take 256 m after a) accepted (r ∙ ap some (joined m after done out)),
      )
