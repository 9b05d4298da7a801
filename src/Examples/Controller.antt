-- ===== src/Examples/Controller.antt =====
-- src/hw/NfcHw.h: the scripted controller answers every read.
use arduino_nfc.Nci.Events.Receiving.{Packet, Gives, payload}
use arduino_nfc.Common.{
  ◌++◌, Bool, true, ltb, ◌&&◌, ℕ, zero, suc, ◌≡◌, ◌%◌, List, [], ◌∷◌, length, refl, IsBytes, arith,
}
use arduino_nfc.Common.Buffer.Bounds.{AllBytes}
use arduino_nfc.Hw.{reads, IsResponsive}
use arduino_nfc.Examples.{scripted, next_bytes, skip_bytes, buf_of}

length-next_bytes : (n : ℕ) (w : List ℕ) → length (next_bytes n w) ≡ n
length-next_bytes zero w = refl
length-next_bytes (suc n) [] = omega (arith, length-next_bytes n [])
length-next_bytes (suc n) (x ∷ xs) = omega (arith, length-next_bytes n xs)

pub next_bytes-IsBytes : (n : ℕ) (w : List ℕ) → IsBytes (next_bytes n w)
next_bytes-IsBytes zero w = tt
next_bytes-IsBytes (suc n) [] = (omega arith, next_bytes-IsBytes n [])
next_bytes-IsBytes (suc n) (x ∷ xs) = (omega arith, next_bytes-IsBytes n xs)

pub scripted-IsResponsive : IsResponsive scripted
scripted-IsResponsive n w =
    reads (next_bytes n w) (n % 256) (skip_bytes n w) refl (omega (arith, length-next_bytes n w))
      (next_bytes-IsBytes n w) refl

pub buf_of-AllBytes : (xs : List ℕ) → IsBytes xs → AllBytes (buf_of xs)
buf_of-AllBytes [] h i = omega arith
buf_of-AllBytes (x ∷ xs) h zero = h.0
buf_of-AllBytes (x ∷ xs) h (suc i) = buf_of-AllBytes xs h.1 i

-- A packet on the wire, before the rest of a script.
abbrev pub sent : Packet → List ℕ → List ℕ
sent p rest = p.byte0 ∷ p.byte1 ∷ length (payload p) ∷ (payload p ++ rest)

next_bytes_append : (xs rest : List ℕ) → IsBytes xs → next_bytes (length xs) (xs ++ rest) ≡ xs
next_bytes_append [] rest h = refl
next_bytes_append (x ∷ xs) rest h =
    let e : x % 256 ≡ x = omega (arith, h.0) in rw (e, next_bytes_append xs rest h.1)

skip_bytes_append : (xs rest : List ℕ) → skip_bytes (length xs) (xs ++ rest) ≡ rest
skip_bytes_append [] rest = refl
skip_bytes_append (x ∷ xs) rest = skip_bytes_append xs rest

abbrev are_bytes : List ℕ → Bool
are_bytes [] = true
are_bytes (x ∷ xs) = ltb x 256 && are_bytes xs

pub are_bytes-IsBytes : (xs : List ℕ) → are_bytes xs ≡ true → IsBytes xs
are_bytes-IsBytes [] h = tt
are_bytes-IsBytes (x ∷ xs) h = (ground arith, are_bytes-IsBytes xs (ground arith))

-- The script gives the packet, if its bytes are bytes.
pub scripted-Gives :
    (p : Packet) (rest : List ℕ)
    → are_bytes (p.byte0 ∷ p.byte1 ∷ length (payload p) ∷ payload p) ≡ true
    → Gives scripted p (sent p rest) rest
scripted-Gives p rest h =
    let (a, (b, (c, bytes))) =
      are_bytes-IsBytes (p.byte0 ∷ p.byte1 ∷ length (payload p) ∷ payload p) h in
    let ea : p.byte0 % 256 ≡ p.byte0 = omega (arith, a) in
    let eb : p.byte1 % 256 ≡ p.byte1 = omega (arith, b) in
    let ec : length (payload p) % 256 ≡ length (payload p) = omega (arith, c) in
    record {
      valid = record { byte0 = a; byte1 = b; first = bytes.0; size = c };
      mid = payload p ++ rest;
      header_read = rw (ea, eb, ec);
      payload_read =
          rw (next_bytes_append (payload p) rest bytes, skip_bytes_append (payload p) rest, ec);
    }
