-- ===== src/Common/Buffer/Bounds.antt =====
-- When accesses to an array stay in bounds, and what they leave there.
use Prim.Native.Nat.{ℕ, zero, suc, ◌+◌, ◌%◌, ◌≤◌, ◌<◌}
use mathlib.Core.Path.{◌≡◌, refl}
use mathlib.Core.List.{List, [], ◌∷◌, ◌++◌}
use native.Mathlib.Omega.{arith}
use arduino_nfc.Common.Lists.{length, take, IsBytes}
use arduino_nfc.Common.Outcome.{done, fault, Returns}
use arduino_nfc.Common.Tests.{ltb, Bool-cases}
use mathlib.Core.Logic.{inl, inr}
use arduino_nfc.Common.Buffer.{Buf, update, slice, store_all}

pub length-slice : (b : Buf) (i n : ℕ) → length (slice b i n) ≡ n
length-slice b i zero = refl
length-slice b i (suc n) = omega (arith, length-slice b (i + 1) n)

-- The array after writes from index `i` on.
unfoldable pub splice : Buf → ℕ → List ℕ → Buf
splice b i [] = b
splice b i (x ∷ xs) = splice (update b i (x % 256)) (i + 1) xs

pub store_all-splice :
    (cap : ℕ) (b : Buf) (i : ℕ) (xs : List ℕ)
    → i + length xs ≤ cap
    → store_all cap b i xs ≡ done (splice b i xs)
unfolding store_all splice
store_all-splice cap b i [] h = refl
store_all-splice cap b i (x ∷ xs) h =
    ground (arith, store_all-splice cap (update b i (x % 256)) (i + 1) xs)

pub store_all-fault :
    (cap : ℕ) (b : Buf) (i : ℕ) (xs : List ℕ)
    → i ≤ cap
    → cap < i + length xs
    → store_all cap b i xs ≡ fault
unfolding store_all
store_all-fault cap b i [] h k = absurd (omega arith)
store_all-fault cap b i (x ∷ xs) h k =
    ground (arith, store_all-fault cap (update b i (x % 256)) (i + 1) xs)

-- Bytes before the first index written keep their value.
pub splice_before : (b : Buf) (i j : ℕ) (xs : List ℕ) → j < i → splice b i xs j ≡ b j
unfolding splice
splice_before b i j [] h = refl
splice_before b i j (x ∷ xs) h = ground (arith, splice_before (update b i (x % 256)) (i + 1) j xs)

-- An array of bytes stays one.
abbrev pub AllBytes : Buf → Type 0
AllBytes b = (i : ℕ) → b i < 256

pub update-AllBytes : (b : Buf) (i v : ℕ) → AllBytes b → AllBytes (update b i (v % 256))
update-AllBytes b i v h j = ground (arith, h j)

pub splice-AllBytes : (b : Buf) (i : ℕ) (xs : List ℕ) → AllBytes b → AllBytes (splice b i xs)
unfolding splice
splice-AllBytes b i [] h = h
splice-AllBytes b i (x ∷ xs) h =
    splice-AllBytes (update b i (x % 256)) (i + 1) xs (update-AllBytes b i x h)

-- What was written is read back.
pub slice-splice :
    (b : Buf) (i : ℕ) (xs : List ℕ) → IsBytes xs → slice (splice b i xs) i (length xs) ≡ xs
unfolding splice
slice-splice b i [] h = refl
slice-splice b i (x ∷ xs) h = ground (
  arith,
  splice_before (update b i (x % 256)) (i + 1) i xs,
  slice-splice (update b i (x % 256)) (i + 1) xs,
)

pub splice-append :
    (b : Buf) (i j : ℕ) (xs ys : List ℕ)
    → j ≡ i + length xs
    → splice (splice b i xs) j ys ≡ splice b i (xs ++ ys)
unfolding splice
splice-append b i j [] ys h = let e : j ≡ i = omega arith in rw e
splice-append b i j (x ∷ xs) ys h =
    splice-append (update b i (x % 256)) (i + 1) j xs ys (omega arith)

-- A write before the first index read is not seen.
pub slice-update_before : (b : Buf) (i v j n : ℕ) → i < j → slice (update b i v) j n ≡ slice b j n
slice-update_before b i v j zero h = refl
slice-update_before b i v j (suc n) h = ground (arith, slice-update_before b i v (j + 1) n)

-- The first bytes of what was written.
pub slice-splice-take :
    (b : Buf) (i k : ℕ) (xs : List ℕ)
    → IsBytes xs
    → k ≤ length xs
    → slice (splice b i xs) i k ≡ take k xs
unfolding splice
slice-splice-take b i zero xs h l = refl
slice-splice-take b i (suc k) [] h l = absurd (omega arith)
slice-splice-take b i (suc k) (x ∷ xs) h l = ground (
  arith,
  splice_before (update b i (x % 256)) (i + 1) i xs,
  slice-splice-take (update b i (x % 256)) (i + 1) k xs,
)

-- Two writes, one behind the other, read back as one.
pub slice_written :
    (b : Buf) (k : ℕ) (xs ys : List ℕ)
    → k ≡ length (xs ++ ys)
    → IsBytes (xs ++ ys)
    → slice (splice (splice b 0 xs) (length xs) ys) 0 k ≡ xs ++ ys
slice_written b k xs ys e h =
    rw (splice-append b 0 (length xs) xs ys (omega arith), e) (slice-splice b 0 (xs ++ ys) h)

pub slice_written_take :
    (b : Buf) (k : ℕ) (xs ys : List ℕ)
    → k ≤ length (xs ++ ys)
    → IsBytes (xs ++ ys)
    → slice (splice (splice b 0 xs) (length xs) ys) 0 k ≡ take k (xs ++ ys)
slice_written_take b k xs ys e h =
    rw (splice-append b 0 (length xs) xs ys (omega arith)) (slice-splice-take b 0 k (xs ++ ys) h e)

pub store_all-AllBytes :
    (cap : ℕ) (b : Buf) (i : ℕ) (xs : List ℕ) → AllBytes b → Returns AllBytes (store_all cap b i xs)
unfolding store_all
store_all-AllBytes cap b i [] h = h
store_all-AllBytes cap b i (x ∷ xs) h = elim (Bool-cases (ltb i cap)) [
  | inl inside ↦
      rw inside (store_all-AllBytes cap (update b i (x % 256)) (i + 1) xs (update-AllBytes b i x h))
  | inr outside ↦ rw outside tt
]
