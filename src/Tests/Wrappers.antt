-- ===== src/Tests/Wrappers.antt =====
-- A compressor that calls a library, at a concrete input; the library stores the bytes as they are.
use pression.Base.{
  ℕ, ◌*◌, ◌/◌, ◌^◌, ◌<◌, ◌≡◌, refl, arith, true, leb, if◌then◌else◌, List, [], ◌∷◌, ◌++◌, length,
  drop, some,
}
use pression.Data.Compressor.{State, finished, count_parts, compress, decompress}
use pression.Data.Wrappers.{Lzf, lzf_bound, lzf_codec}
use pression.Data.Wrappers.Lossless.{IsDocumentedLzf, IsRoomy, decompress-compress_lzf}

abbrev storing : Lzf
storing = record {
  lzf_compress = λ bytes n out_size. if leb (length bytes) out_size then bytes else [];
  lzf_decompress = λ input n out_size. input;
}

abbrev scaled : ℕ → ℕ
scaled n = n * 11 / 10

storing-IsDocumentedLzf : IsDocumentedLzf storing
storing-IsDocumentedLzf = record {
  bounded = λ bytes out_size. ground arith;
  given_back = λ bytes out_size a pos room. ground arith;
}

roomy : IsRoomy 100 (λ n old. n) scaled
unfolding lzf_bound
roomy = record {
  small = omega arith;
  scaled_up = λ n h. omega arith;
  reserved = λ n old h. omega arith;
  narrow = λ n old h. omega arith;
}

abbrev bytes : List ℕ
bytes = 1 ∷ 2 ∷ 3 ∷ 4 ∷ 5 ∷ 6 ∷ []

abbrev place : List ℕ
place = 0 ∷ 0 ∷ 0 ∷ 0 ∷ 0 ∷ 0 ∷ 7 ∷ []

abbrev unused : State
unused = record { total_in = 0; total_out = 0; compressed = [] }

two_chunks : count_parts (lzf_codec true 4 (λ n old. n) storing scaled) 6 < 2 ^ 31
unfolding count_parts lzf_codec
two_chunks = omega arith

decompress-compress_lzf_example :
    let codec = lzf_codec true 4 (λ n old. n) storing scaled in
    (new : State) × (compress codec (λ n old. n) true bytes (length bytes) unused ≡ some new)
    × (new' : State) × (decompress codec new.compressed place (length bytes) unused
        ≡ finished new' (bytes ++ drop (length bytes) place))
decompress-compress_lzf_example =
    decompress-compress_lzf 100 4 (λ n old. n) storing scaled true bytes place unused unused
      storing-IsDocumentedLzf roomy (omega arith) (omega arith) (omega arith) refl (omega arith)
      two_chunks (omega arith)
