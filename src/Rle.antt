-- ===== src/Rle.antt =====
-- The run-length coding of pression/compressor/compressorRLE.ipp: `_write`, `_compressToken` and
-- the `READ` macro, for one channel of components. `marker` is `_rleMarker`, and `limit` is
-- `std::numeric_limits<T>::max()`, so that the component type has `limit + 1` values.
pub mod Runs
pub mod RoundTrip
pub mod Bound
use mathlib.Core.Option
use pression.Base.{
  ℕ, zero, suc, ◌+◌, ◌%◌, Bool, true, false, not, ◌&&◌, ◌==◌, if◌then◌else◌, List, [], ◌∷◌, ◌++◌,
  Option, none, some,
}

infixl 5 ◌>>=◌
abbrev pub ◌>>=◌ {ℓ κ} : {A : Type ℓ} {B : Type κ} → Option A → (A → Option B) → Option B
none >>= f = none
some a >>= f = f a

-- The components that `_write` stores for a token which is not the marker: the switch on
-- `numTokens`. In the case 0 the code only asserts.
unfoldable pub plain_run : ℕ → ℕ → ℕ → List ℕ
plain_run marker token zero = []
plain_run marker token (suc zero) = token ∷ []
plain_run marker token (suc (suc zero)) = token ∷ token ∷ []
plain_run marker token (suc (suc (suc n))) = marker ∷ token ∷ suc (suc (suc n)) ∷ []

-- `_write`; what is stored at `out` is appended to what was stored before.
unfoldable pub write : ℕ → ℕ → ℕ → List ℕ → List ℕ
unfolding plain_run
write marker token num_tokens out =
    if token == marker
    then out ++ (marker ∷ marker ∷ num_tokens ∷ [])
    else out ++ plain_run marker token num_tokens

-- The variables of one channel while it is compressed: `nameLast`, `nameSame` and what was
-- stored through `nameOut`.
pub record Channel : Type 0 where
  pub last : ℕ
  pub same : ℕ
  pub out : List ℕ

-- The variables of one channel while it is read: `name`, `nameLeft` and what is still to be read
-- at `nameIn`.
pub record Reader : Type 0 where
  pub token : ℕ
  pub left : ℕ
  pub input : List ℕ

-- A channel at its first component, and a reader at the start of its input.
abbrev pub start_channel : ℕ → Channel
start_channel x = record { last = x; same = 1; out = [] }

abbrev pub start_reader : List ℕ → Reader
start_reader input = record { token = 0; left = 0; input = input }

-- The run behind a marker: `nameIn[1]` and `nameIn[2]`.
unfoldable pub fetch_run : List ℕ → Option Reader
fetch_run [] = none
fetch_run (y ∷ []) = none
fetch_run (y ∷ z ∷ rest) = some (record { token = y; left = z; input = rest })

-- The first half of `READ`: the next symbol or run is taken from the input. `none` is a read
-- behind the end of the input.
unfoldable pub fetch : ℕ → List ℕ → Option Reader
unfolding fetch_run
fetch marker [] = none
fetch marker (x ∷ rest) =
    if x == marker then fetch_run rest else some (record { token = x; left = 1; input = rest })

-- `WRITE_OUTPUT`, behind the loop.
unfoldable pub write_output : ℕ → Channel → List ℕ
unfolding write
write_output marker ch = write marker ch.last ch.same ch.out

module _ (marker limit : ℕ) where
  -- `_compressToken`; `++numLast` wraps.
  unfoldable pub compress_token : ℕ → Channel → Channel
  unfolding write
  compress_token x ch =
      if x == ch.last && not (ch.same == limit)
      then record ch { same = (ch.same + 1) % suc limit }
      else record { last = x; same = 1; out = write marker ch.last ch.same ch.out }

  -- The loop over the components behind the first one.
  unfoldable pub compress_rest : List ℕ → Channel → Channel
  unfolding compress_token
  compress_rest [] ch = ch
  compress_rest (x ∷ xs) ch = compress_rest xs (compress_token x ch)

  -- One channel, compressed from its first component to its last.
  unfoldable pub compress_channel : List ℕ → List ℕ
  unfolding compress_rest write_output
  compress_channel [] = []
  compress_channel (x ∷ xs) = write_output marker (compress_rest xs (start_channel x))

  -- `--nameLeft`, which wraps.
  unfoldable pub count_down : Reader → Reader
  count_down r = record r { left = (r.left + limit) % suc limit }

  -- `READ`: a symbol or run is taken if none is left over, and one token of it is used.
  unfoldable pub read : Reader → Option Reader
  unfolding fetch count_down
  read r = if r.left == 0 then Option.map count_down (fetch marker r.input) else some (count_down r)

  -- `n` reads: the tokens, and the reader behind them.
  unfoldable pub read_channel : ℕ → Reader → Option (List ℕ × Reader)
  unfolding read
  read_channel zero r = some ([], r)
  read_channel (suc n) r = do r' ← read r; (xs, s) ← read_channel n r'; some (r'.token ∷ xs, s)
