-- ===== src/Log.antt =====
-- src/log/NfcLog.cpp: what the log prints on the serial line, for a format and for a buffer.
pub mod Levels
pub mod Formats
use arduino_nfc.Common.{
  ℕ, suc, ◌≤◌, ◌≡◌, ◌↔◌, ◌==◌, ltb, ◌||◌, refl, if◌then◌else◌, true, false, Bool-cases, inl, inr,
  Option, none, some, List, [], ◌∷◌, ◌++◌, length, arith,
}
use arduino_nfc.Common.Outcome.{Outcome, done, fault, hang, ◌>>=◌, Completes}

-- One call of `Serial.print`: of a character, a text, or a number in base 10, 16 or 2.
pub data Piece : Type 0 where
  char dec hex bin : ℕ → Piece
  text : List ℕ → Piece

-- What the character after a percent sign makes of an argument.
pub data Conversion : Type 0 where
  as_text as_dec as_hex as_0x_hex as_bin as_0b_bin as_letter as_word : Conversion

-- A `c` prints the number of its character.
unfoldable pub directive : ℕ → Option Conversion
directive c =
    if c == 115
    then some as_text
    else if (c == 100) || (c == 105)
    then some as_dec
    else if c == 120
    then some as_hex
    else if c == 88
    then some as_0x_hex
    else if c == 98
    then some as_bin
    else if c == 66
    then some as_0b_bin
    else if (c == 108) || (c == 99)
    then some as_dec
    else if c == 116
    then some as_letter
    else if c == 84
    then some as_word
    else none

-- `memory` gives the characters at a pointer.
unfoldable pub pieces : (ℕ → List ℕ) → Conversion → ℕ → List Piece
pieces memory as_text v = text (memory v) ∷ []
pieces memory as_dec v = dec v ∷ []
pieces memory as_hex v = hex v ∷ []
pieces memory as_0x_hex v = text (48 ∷ 120 ∷ []) ∷ hex v ∷ []
pieces memory as_bin v = bin v ∷ []
pieces memory as_0b_bin v = text (48 ∷ 98 ∷ []) ∷ bin v ∷ []
pieces memory as_letter v = text (if v == 1 then 84 ∷ [] else 70 ∷ []) ∷ []
pieces memory as_word v =
    text (if v == 1 then 116 ∷ 114 ∷ 117 ∷ 101 ∷ [] else 102 ∷ 97 ∷ 108 ∷ 115 ∷ 101 ∷ []) ∷ []

abbrev prefix : List Piece → Outcome (List Piece) → Outcome (List Piece)
prefix ps r = r >>= λ qs. done (ps ++ qs)

-- The loop over the format, with the arguments; an argument that was not passed is a fault.
unfoldable pub print_loop : (ℕ → List ℕ) → List ℕ → List ℕ → Outcome (List Piece)
print_loop memory [] args = done []
print_loop memory (c ∷ []) args = done (if c == 37 then [] else char c ∷ [])
print_loop memory (c ∷ d ∷ str) args = elim (c == 37) [
  | false ↦ prefix (char c ∷ []) (print_loop memory (d ∷ str) args)
  | true ↦ elim (directive d) [
    | none ↦ prefix (char d ∷ []) (print_loop memory str args)
    | some k ↦ elim args [
      | [] ↦ fault
      | v ∷ vs ↦ prefix (pieces memory k v) (print_loop memory str vs)
    ]
  ]
]

-- `print(level, str, args)` of an object with this level.
unfoldable pub print : (ℕ → List ℕ) → ℕ → ℕ → List ℕ → List ℕ → Outcome (List Piece)
print memory own level str args = if ltb own level then done [] else print_loop memory str args

-- The dump of a buffer: `print(level, str, buf, len)`, with the address and the bytes of the buffer.
unfoldable pub print_bytes : List ℕ → List Piece
print_bytes [] = text (10 ∷ []) ∷ []
print_bytes (b ∷ bs) = text (32 ∷ 48 ∷ 120 ∷ []) ∷ hex b ∷ print_bytes bs

unfoldable pub print_buffer : ℕ → ℕ → List ℕ → ℕ → List ℕ → List Piece
print_buffer own level str address bytes =
    if ltb own level || ((address == 0) || (length bytes == 0))
    then []
    else text str
      ∷ text (48 ∷ 120 ∷ [])
      ∷ dec address
      ∷ text (91 ∷ [])
      ∷ dec (length bytes)
      ∷ text (93 ∷ 58 ∷ [])
      ∷ print_bytes bytes
