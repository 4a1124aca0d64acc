-- ===== src/Data/Word.antt =====
-- Memory as bytes and as words of `size` bytes, in little-endian order: what the casts between
-- `uint8_t*` and `T*` in pression/data/CompressorRLE.cpp mean.
use native.Mathlib.Nat.{pow-suc}
use pression.Base.{
  ℕ, zero, suc, ◌+◌, ◌*◌, ◌/◌, ◌%◌, ◌^◌, ◌<◌, ◌≡◌, refl, ap, ap₂, ◌∙◌, arith, List, [], ◌∷◌, ◌++◌,
  length, length-append, length-take, length-drop, take, drop, take-append-drop,
}
use pression.Base.Buffer.{take_behind, drop_behind}

unfoldable pub le_word : List ℕ → ℕ
le_word [] = 0
le_word (b ∷ bs) = b + 256 * le_word bs

unfoldable pub le_bytes : ℕ → ℕ → List ℕ
le_bytes zero w = []
le_bytes (suc size) w = (w % 256) ∷ le_bytes size (w / 256)

-- The `n` words from the start of `bytes`.
unfoldable pub words_at : ℕ → ℕ → List ℕ → List ℕ
unfolding le_word
words_at size zero bytes = []
words_at size (suc n) bytes = le_word (take size bytes) ∷ words_at size n (drop size bytes)

-- The bytes of words that were stored one behind the other.
unfoldable pub bytes_of : ℕ → List ℕ → List ℕ
unfolding le_bytes
bytes_of size [] = []
bytes_of size (w ∷ ws) = le_bytes size w ++ bytes_of size ws

-- Every element is below the bound.
abbrev pub AllBelow : ℕ → List ℕ → Type 0
AllBelow bound [] = Unit {0}
AllBelow bound (x ∷ xs) = (x < bound) × AllBelow bound xs

pub AllBelow-append :
    (bound : ℕ) (xs ys : List ℕ) → AllBelow bound xs → AllBelow bound ys → AllBelow bound (xs ++ ys)
AllBelow-append bound [] ys p q = q
AllBelow-append bound (x ∷ xs) ys p q = (p.0, AllBelow-append bound xs ys p.1 q)

pub AllBelow-take : (bound n : ℕ) (xs : List ℕ) → AllBelow bound xs → AllBelow bound (take n xs)
AllBelow-take bound zero xs p = tt
AllBelow-take bound (suc n) [] p = tt
AllBelow-take bound (suc n) (x ∷ xs) p = (p.0, AllBelow-take bound n xs p.1)

pub AllBelow-drop : (bound n : ℕ) (xs : List ℕ) → AllBelow bound xs → AllBelow bound (drop n xs)
AllBelow-drop bound zero xs p = p
AllBelow-drop bound (suc n) [] p = tt
AllBelow-drop bound (suc n) (x ∷ xs) p = AllBelow-drop bound n xs p.1

pub length-le_bytes : (size w : ℕ) → length (le_bytes size w) ≡ size
unfolding le_bytes
length-le_bytes zero w = refl
length-le_bytes (suc size) w = ap suc (length-le_bytes size (w / 256))

pub le_word-lt : (bs : List ℕ) → AllBelow 256 bs → le_word bs < 256 ^ length bs
unfolding le_word
le_word-lt [] h = omega arith
le_word-lt (b ∷ bs) h = omega (arith, pow-suc 256 (length bs), le_word-lt bs h.1)

pub le_word-le_bytes : (size w : ℕ) → w < 256 ^ size → le_word (le_bytes size w) ≡ w
unfolding le_word le_bytes
le_word-le_bytes zero w h = omega arith
le_word-le_bytes (suc size) w h =
    omega
      (arith, pow-suc 256 size, le_word-le_bytes size (w / 256) (omega (arith, pow-suc 256 size)))

pub le_bytes-le_word : (bs : List ℕ) → AllBelow 256 bs → le_bytes (length bs) (le_word bs) ≡ bs
unfolding le_word le_bytes
le_bytes-le_word [] h = refl
le_bytes-le_word (b ∷ bs) h =
    ap₂ ◌∷◌ (omega (arith, h.0)) (ap (λ t. le_bytes (length bs) t) upper ∙ le_bytes-le_word bs h.1)
  where
    upper : (b + 256 * le_word bs) / 256 ≡ le_word bs
    upper = omega (arith, h.0)

pub length-words_at : (size n : ℕ) (bytes : List ℕ) → length (words_at size n bytes) ≡ n
unfolding words_at
length-words_at size zero bytes = refl
length-words_at size (suc n) bytes = ap suc (length-words_at size n (drop size bytes))

pub length-bytes_of : (size : ℕ) (ws : List ℕ) → length (bytes_of size ws) ≡ length ws * size
unfolding bytes_of
length-bytes_of size [] = omega arith
length-bytes_of size (w ∷ ws) = omega (
  arith,
  length-append (le_bytes size w) (bytes_of size ws),
  length-le_bytes size w,
  length-bytes_of size ws,
)

-- Words that were stored are read back.
pub words_at-bytes_of :
    (size : ℕ) (ws : List ℕ)
    → AllBelow (256 ^ size) ws
    → words_at size (length ws) (bytes_of size ws) ≡ ws
unfolding words_at bytes_of
words_at-bytes_of size [] h = refl
words_at-bytes_of size (w ∷ ws) h =
    ap₂ ◌∷◌ (ap le_word head ∙ le_word-le_bytes size w h.0)
      (ap (λ t. words_at size (length ws) t) tail ∙ words_at-bytes_of size ws h.1)
  where
    head : take size (le_bytes size w ++ bytes_of size ws) ≡ le_bytes size w
    head = rw (length-le_bytes size w) at (take_behind (le_bytes size w) (bytes_of size ws))

    tail : drop size (le_bytes size w ++ bytes_of size ws) ≡ bytes_of size ws
    tail = rw (length-le_bytes size w) at (drop_behind (le_bytes size w) (bytes_of size ws))

-- Bytes that were read as words are stored back.
pub bytes_of-words_at :
    (size n : ℕ) (bytes : List ℕ)
    → AllBelow 256 bytes
    → length bytes ≡ n * size
    → bytes_of size (words_at size n bytes) ≡ bytes
unfolding words_at bytes_of
bytes_of-words_at size zero [] h e = refl
bytes_of-words_at size zero (b ∷ bytes) h e = absurd (omega arith)
bytes_of-words_at size (suc n) bytes h e =
    ap₂ ◌++◌ head (
      bytes_of-words_at size n (drop size bytes) (AllBelow-drop 256 size bytes h)
        (omega (arith, length-drop size bytes)))
    ∙ take-append-drop size bytes
  where
    whole : length (take size bytes) ≡ size
    whole = omega (arith, length-take size bytes)

    head : le_bytes size (le_word (take size bytes)) ≡ take size bytes
    head = rw whole at (le_bytes-le_word (take size bytes) (AllBelow-take 256 size bytes h))

pub words_at-AllBelow :
    (size n : ℕ) (bytes : List ℕ)
    → AllBelow 256 bytes
    → length bytes ≡ n * size
    → AllBelow (256 ^ size) (words_at size n bytes)
unfolding words_at
words_at-AllBelow size zero bytes h e = tt
words_at-AllBelow size (suc n) bytes h e = (
  rw whole at (le_word-lt (take size bytes) (AllBelow-take 256 size bytes h)),
  words_at-AllBelow size n (drop size bytes) (AllBelow-drop 256 size bytes h)
      (omega (arith, length-drop size bytes)),
)
  where
    whole : length (take size bytes) ≡ size
    whole = omega (arith, length-take size bytes)
