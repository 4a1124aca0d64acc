-- ===== src/Data/Compressor/Count.antt =====
-- How many chunks `compress` of pression/data/Compressor.cpp makes, against the test of `decompress`.
use native.Mathlib.Nat.{
  lt_of_mul-lt-mul_right, lt-div-mul-add, div-mul-le_self, div-le_self, div-add-mod',
}
use pression.Base.{
  ℕ, ◌+◌, ◌-◌, ◌*◌, ◌/◌, ◌%◌, ◌^◌, ◌≤◌, ◌<◌, ◌≡◌, arith, Bool, false, not, ◌||◌, ◌==◌,
  if◌then◌else◌, u64,
}
use pression.Data.Compressor.{Codec, count_parts, is_inconsistent}

module _ (codec : Codec) (chunk_pos : 0 < codec.get_chunk_size) (size : ℕ)
    (small : size + codec.get_chunk_size < 2 ^ 64) where
  abbrev chunk : ℕ
  chunk = codec.get_chunk_size

  abbrev n_chunks : ℕ
  n_chunks = count_parts codec size

  exact_sum : u64 (size + chunk + 2 ^ 64 - 1) ≡ size + chunk - 1
  exact_sum = omega (arith, chunk_pos)

  -- The chunks cover the data, and each but the last is full.
  pub enough : size ≤ n_chunks * chunk
  unfolding count_parts
  enough =
      omega (
        arith,
        exact_sum,
        lt-div-mul-add {a = u64 (size + chunk + 2 ^ 64 - 1)} chunk_pos,
        chunk_pos,
      )

  pub tight : n_chunks * chunk < size + chunk
  unfolding count_parts
  tight =
      omega (arith, exact_sum, div-mul-le_self (u64 (size + chunk + 2 ^ 64 - 1)) chunk, chunk_pos)

  -- The quotient of the test is the number of chunks, or one less.
  above : n_chunks < size / chunk + 2
  above = lt_of_mul-lt-mul_right chunk (omega (arith, tight, lt-div-mul-add {a = size} chunk_pos))

  below : size / chunk < n_chunks + 1
  below =
      lt_of_mul-lt-mul_right chunk (omega (arith, enough, chunk_pos, div-mul-le_self size chunk))

  -- The number of chunks passes the test of `decompress`.
  pub consistent : is_inconsistent codec size n_chunks ≡ false
  unfolding is_inconsistent
  consistent = ground (arith, above, below, div-le_self size chunk)

  -- It is the quotient of a multiple of the chunk size, and one more for any other size.
  whole : size % chunk ≡ 0 → n_chunks ≡ size / chunk
  whole e = omega (arith, below, less)
    where
      less : n_chunks < size / chunk + 1
      less = lt_of_mul-lt-mul_right chunk (omega (arith, tight, e, div-add-mod' size chunk))

  partial : 0 < size % chunk → n_chunks ≡ size / chunk + 1
  partial h = omega (arith, above, more)
    where
      more : size / chunk < n_chunks
      more = lt_of_mul-lt-mul_right chunk (omega (arith, enough, h, div-add-mod' size chunk))

  -- The numbers that pass the test: that of the chunks, and a neighbour of it.
  abbrev pub is_accepted : ℕ → Bool
  is_accepted n =
      n == n_chunks || (if size % chunk == 0 then n == n_chunks + 1 else n + 1 == n_chunks)

  pub is_inconsistent-is_accepted : (n : ℕ) → is_inconsistent codec size n ≡ not (is_accepted n)
  unfolding is_inconsistent
  is_inconsistent-is_accepted n = ground (arith, whole, partial, div-le_self size chunk)
