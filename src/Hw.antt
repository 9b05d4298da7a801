-- ===== src/Hw.antt =====
-- src/hw/NfcHw.h: the interface through which the NCI layer drives an NFC controller.
pub mod Pn7120
use arduino_nfc.Common.{ℕ, ◌≤◌, ◌≡◌, ◌%◌, max, List, length, IsBytes}
use arduino_nfc.Common.Outcome.{Outcome, done}

-- `World` is the state of the controller and of the line to it. `write` takes the bytes of its
-- buffer argument and gives its uint8_t result. `read n` gives the bytes that it stores through its
-- buffer pointer, first to last, and its uint8_t result; it hangs if the controller never answers.
pub record NfcHw : Type 1 where
  pub World : Type 0
  pub write : List ℕ → World → ℕ × World
  pub read : ℕ → World → Outcome (List ℕ × ℕ × World)

-- A read that returns: it stores bytes, as many as were asked for (and one if none was), and its
-- result is that number as a uint8_t.
pub data Reads (hw : NfcHw) (n : ℕ) (w : hw.World) : Type 0 where
  reads :
      (bytes : List ℕ) (ret : ℕ) (w' : hw.World)
      → hw.read n w ≡ done (bytes, ret, w')
      → length bytes ≤ max 1 n
      → IsBytes bytes
      → ret ≡ n % 256
      → Reads hw n w

-- What the NCI layer relies on: every read returns.
abbrev pub IsResponsive : NfcHw → Type 0
IsResponsive hw = (n : ℕ) (w : hw.World) → Reads hw n w
