-- ===== src/Plugin/Api/RoundTrip.antt =====
-- An image that goes through the C interface of the plugin.
use pression.Base.{
  ℕ, zero, suc, ◌+◌, ◌^◌, ◌≤◌, ◌<◌, ◌≡◌, refl, ap, ◌∙◌, arith, not, List, [], ◌∷◌, ◌++◌, map,
  length, take, drop, get_elem?, set, get_elem?-append_last, get_elem?-set_self, Option,
  Option-cases, inl, inr, some,
}
use pression.Plugin.Float.{Float32, IsExact}
use pression.Plugin.Codec.{serial}
use pression.Plugin.Codec.Serial.{NoneEmpty}
use pression.Plugin.Codec.Stored.{Reserves}
use pression.Plugin.Dims.{Dims, has_flag, count_pixels, ignore_alpha_flag}
use pression.Plugin.Class.{pixel_size, compress_dims}
use pression.Plugin.Class.RoundTrip.{kept, ArePixels, serial_round_trip, serial-NoneEmpty}
use pression.Plugin.Engines.{Functions}
use pression.Plugin.Api.{
  Instance, State, find_functions, new_compressor, instance_at, get_num_results, get_result,
  get_results, compress, decompress,
}

module _ {A : Type 0} where
  -- An element and what follows it.
  get_elem?-drop :
      (xs : List A) (i : ℕ)
      → i < length xs
      → (x : A) × (get_elem? xs i ≡ some x) × (drop i xs ≡ x ∷ drop (i + 1) xs)
  get_elem?-drop [] i h = absurd (omega arith)
  get_elem?-drop (x ∷ xs) zero h = (x, refl, refl)
  get_elem?-drop (x ∷ xs) (suc i) h =
      let (y, p, q) = get_elem?-drop xs i (omega arith) in
      let next : suc (i + 1) ≡ suc i + 1 = omega arith in
      (y, p, q ∙ ap (λ k. y ∷ drop k (x ∷ xs)) next)

  within : (xs : List A) (i : ℕ) {x : A} → get_elem? xs i ≡ some x → i < length xs
  within [] i h = absurd (ground (arith, h))
  within (x ∷ xs) zero h = omega arith
  within (x ∷ xs) (suc i) h = omega (arith, within xs i h)

slot_of :
    (ptr : ℕ) (st : State) {object : Instance}
    → instance_at ptr st ≡ some object
    → get_elem? st.instances ptr ≡ some (some object)
unfolding instance_at
slot_of ptr st h = elim (Option-cases (get_elem? st.instances ptr)) [
  | inl e ↦ absurd (ground (arith, e, h))
  | inr (slot, e) ↦ ground (arith, e, h)
]

-- The results from `i` on are collected in order.
get_results-take :
    (ptr k i : ℕ) (st : State) (object : Instance)
    → instance_at ptr st ≡ some object
    → i + k ≤ length object.results.buffers
    → get_results ptr k i st ≡ some (take k (drop i object.results.buffers))
unfolding get_results get_result
get_results-take ptr zero i st object e h = refl
get_results-take ptr (suc k) i st object e h =
    let (x, p, q) = get_elem?-drop object.results.buffers i (omega arith) in
    rw (e, p, q, get_results-take ptr k (i + 1) st object e (omega arith)) refl

-- As many results are collected as are asked for.
pub length-get_results :
    (ptr k i : ℕ) (st : State) (results : List (List ℕ))
    → get_results ptr k i st ≡ some results
    → length results ≡ k
unfolding get_results
length-get_results ptr zero i st results h = ground (arith, h)
length-get_results ptr (suc k) i st results h = elim (Option-cases (get_result ptr i st)) [
  | inl e ↦ absurd (ground (arith, e, h))
  | inr (x, e) ↦ elim (Option-cases (get_results ptr k (i + 1) st)) [
    | inl f ↦ absurd (ground (arith, e, f, h))
    | inr (rest, f) ↦ ground (arith, e, f, h, length-get_results ptr k (i + 1) st rest f)
  ]
]

-- In a serial build, with arithmetic that is exact for the one chunk, and memory that has the size that is reserved for
-- it or more: a compressor that was made for a registered name, whatever it compressed before, compresses an image of
-- one pixel to 2 ^ 24 pixels of its class's type, storing nothing behind that memory; all its results, four, can be
-- collected, none is empty, as `EqCompressorGetResult` asserts, and decompressing them under the name, with the same
-- dimensions and flags, writes what the class keeps of each pixel.
pub decompress-get_results :
    (fl : Float32) (capacity : ℕ → List ℕ → ℕ) (name ptr : ℕ) (st : State) (f : Functions)
    (object : Instance) (image out : List ℕ) (dims : Dims) (flags : ℕ)
    → find_functions name st ≡ some f
    → instance_at ptr st ≡ some object
    → object.class ≡ f.class
    → Reserves capacity
    → IsExact fl
    → 0 < length image
    → length image ≤ 2 ^ 24
    → count_pixels dims flags ≡ length image
    → ArePixels (pixel_size f.class) image
    → length image ≤ length out
    → (after : State) × (compress fl (serial capacity) ptr image dims flags st ≡ some after)
      × (n : ℕ) × (get_num_results ptr after ≡ some n)
      × (n ≡ 4)
      × (results : List (List ℕ)) × (get_results ptr n 0 after ≡ some results)
      × NoneEmpty results
      × (decompress fl (serial capacity) name results out dims flags after
          ≡ some (
              map (kept f.class (not (has_flag flags ignore_alpha_flag))) image
              ++ drop (length image) out))
unfolding compress decompress get_num_results
decompress-get_results fl capacity name ptr st f object image out dims flags found valid same
      reserves exact pos small count pixels fits =
    let (new, p, enough, counted, q) =
      serial_round_trip f.class fl capacity image out dims flags object.results reserves exact small
        count pixels fits in
    let done : Instance = record object { results = new } in
    let after : State = record st { instances = set st.instances ptr (some done) } in
    let placed : instance_at ptr after ≡ some done = placed_at done in
    let step : compress_dims object.class fl (serial capacity) image dims flags object.results
        ≡ some new =
      ap (λ c. compress_dims c fl (serial capacity) image dims flags object.results) same ∙ p in
    (
      after,
      rw (valid, step) refl,
      new.n_results,
      rw placed refl,
      counted,
      take new.n_results new.buffers,
      get_results-take ptr new.n_results 0 after done placed (omega (arith, enough)),
      rw counted (
          serial-NoneEmpty f.class fl capacity image dims flags object.results new exact pos small
            count p),
      rw (found_after after.instances) q,
    )
  where
    placed_at :
        (done : Instance)
        → instance_at ptr (record st { instances = set st.instances ptr (some done) }) ≡ some done
    placed_at done =
        unfold instance_at in
        rw
          (get_elem?-set_self st.instances ptr (some done)
            (within st.instances ptr (slot_of ptr st valid)))
          refl

    found_after :
        (instances : List (Option Instance))
        → find_functions name (record st { instances = instances }) ≡ some f
    found_after instances = unfold find_functions in found

-- A new compressor has the class that is registered under the name, and no results; its pointer is that
-- of no other compressor, and the others stay as they were.
pub instance_at-new_compressor :
    (name ptr : ℕ) (st : State) (f : Functions)
    → find_functions name st ≡ some f
    → ptr < length st.instances
    → (after : State) × (new_compressor name st ≡ some (length st.instances, after))
      × (instance_at (length st.instances) after
          ≡ some (record { class = f.class; results = record { buffers = []; n_results = 0 } }))
      × (instance_at ptr after ≡ instance_at ptr st)
unfolding new_compressor instance_at
instance_at-new_compressor name ptr st f found old = (
  record st { instances = st.instances ++ (some made ∷ []) },
  rw found refl,
  rw (get_elem?-append_last st.instances (some made)) refl,
  rw (earlier st.instances ptr old) refl,
)
  where
    made : Instance
    made = record { class = f.class; results = record { buffers = []; n_results = 0 } }

    earlier :
        (xs : List (Option Instance)) (i : ℕ)
        → i < length xs
        → get_elem? (xs ++ (some made ∷ [])) i ≡ get_elem? xs i
    earlier [] i h = absurd (omega arith)
    earlier (x ∷ xs) zero h = refl
    earlier (x ∷ xs) (suc i) h = earlier xs i (omega arith)
