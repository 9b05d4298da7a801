-- ===== src/Common/Buffer.antt =====
-- A fixed array of bytes: its contents, and accesses that fault outside its capacity.
pub mod Bounds
use Prim.Native.Nat.{ℕ, zero, suc, ◌+◌, ◌%◌, ◌≤◌, ◌<◌}
use mathlib.Core.Path.{◌≡◌, refl}
use mathlib.Core.List.{List, [], ◌∷◌, ◌++◌}
use native.Mathlib.Omega.{arith}
use arduino_nfc.Common.Tests.{ltb, leb, ◌==◌, if◌then◌else◌}
use arduino_nfc.Common.Lists.{length, set}
use arduino_nfc.Common.Outcome.{Outcome, done, fault, ◌>>=◌}

abbrev pub Buf : Type 0
Buf = ℕ → ℕ

abbrev pub update : Buf → ℕ → ℕ → Buf
update b i v j = if j == i then v else b j

-- `*p` at the array's index `i`.
abbrev pub load : ℕ → Buf → ℕ → Outcome ℕ
load cap b i = if ltb i cap then done (b i) else fault

-- `*p = (uint8_t)v` at the array's index `i`.
abbrev pub store : ℕ → Buf → ℕ → ℕ → Outcome Buf
store cap b i v = if ltb i cap then done (update b i (v % 256)) else fault

-- The `n` bytes from index `i` on.
abbrev pub slice : Buf → ℕ → ℕ → List ℕ
slice b i zero = []
slice b i (suc n) = b i ∷ slice b (i + 1) n

-- Writes from index `i` on, first to last.
unfoldable pub store_all : ℕ → Buf → ℕ → List ℕ → Outcome Buf
store_all cap b i [] = done b
store_all cap b i (x ∷ xs) = store cap b i x >>= λ b'. store_all cap b' (i + 1) xs

-- Reads of `n` bytes from index `i` on.
abbrev pub load_all : ℕ → Buf → ℕ → ℕ → Outcome (List ℕ)
load_all cap b i n = if leb (i + n) cap then done (slice b i n) else fault
