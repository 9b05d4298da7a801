-- ===== src/Hw/Pn7120.antt =====
-- src/hw/NfcHw_pn7120.cpp: the driver of the PN7120, over the pins and the Wire library of the board.
-- Log lines are left out.
pub mod Transfers
use arduino_nfc.Common.{
  ap, Bool-cases, inl, inr, ◌⊎◌, ℕ, zero, suc, ◌-◌, ◌%◌, ◌≤◌, ◌≡◌, refl, max, Bool, true, false,
  List, [], ◌∷◌, length, IsBytes, arith,
}
use arduino_nfc.Common.Outcome.{Outcome, done, hang, ◌>>=◌}
use arduino_nfc.Hw.{NfcHw, Reads, reads, IsResponsive}

-- The functions of the board that the driver calls, each with the state of the board; `read` and
-- `available` give an int, of which the driver uses the low byte and whether it is 0.
pub record Board : Type 1 where
  pub State : Type 0
  pub pin_mode : ℕ → ℕ → State → State
  pub digital_write : ℕ → Bool → State → State
  pub digital_read : ℕ → State → Bool × State
  pub delay : ℕ → State → State
  pub begin : State → State
  pub begin_transmission : ℕ → State → State
  pub write : ℕ → State → State
  pub end_transmission : State → State
  pub request_from : ℕ → ℕ → State → State
  pub read : State → ℕ × State
  pub available : State → ℕ × State

-- What the Wire library documents: a request makes at most as many bytes available as it asks for, a
-- read takes one of them, and `available` counts them.
pub record Buffers (b : Board) : Type 0 where
  pub pending : b.State → ℕ
  pub counts : (s : b.State) → b.available s ≡ (pending s, s)
  pub takes : (s : b.State) → pending (b.read s).1 ≡ pending s - 1
  pub fills : (address n : ℕ) (s : b.State) → pending (b.request_from address n s) ≤ n

zero_or_suc : (n : ℕ) → (n ≡ 0) ⊎ ((m : ℕ) × (n ≡ suc m))
zero_or_suc zero = inl refl
zero_or_suc (suc m) = inr (m, refl)

module _ (b : Board) (irq reset address : ℕ) where
  open b use {State}

  abbrev input : ℕ
  input = 0

  abbrev output : ℕ
  output = 1

  unfoldable pub init : State → State
  init s =
      b.begin
        (b.delay 10 (b.digital_write reset true (b.pin_mode output reset (b.pin_mode input irq s))))

  -- `while (len--) Wire.write(*buf++)`
  unfoldable pub write_bytes : List ℕ → State → State
  write_bytes [] s = s
  write_bytes (x ∷ xs) s = write_bytes xs (b.write x s)

  unfoldable pub write : List ℕ → State → ℕ × State
  write bytes s =
      (length bytes % 256, b.end_transmission (write_bytes bytes (b.begin_transmission address s)))

  -- `wait`, for as many polls of the line.
  unfoldable pub wait : ℕ → State → Outcome State
  wait zero s = hang
  wait (suc polls) s =
      let (high, s') = b.digital_read irq s in
      elim high [ true ↦ done s' | false ↦ wait polls (b.delay 10 s') ]

  -- The loop of `read`, for as many rounds: the bytes that it stores.
  unfoldable pub read_bytes : ℕ → State → Outcome (List ℕ × State)
  read_bytes zero s = hang
  read_bytes (suc rounds) s =
      let (x, s') = b.read s in
      let (more, s'') = b.available s' in
      elim more [
        | zero ↦ done (x % 256 ∷ [], s'')
        | suc k ↦ read_bytes rounds s'' >>= λ r. done (x % 256 ∷ r.0, r.1)
      ]

  -- `read`; the loop makes at most one round for each byte asked for, and always one.
  unfoldable pub read : ℕ → ℕ → State → Outcome (List ℕ × ℕ × State)
  read polls len s = do
    s1 ← wait polls s
    (bytes, s2) ← read_bytes (max 1 len) (b.request_from address len s1)
    done (bytes, len % 256, s2)

  -- The class as a subclass of NfcHw, which waits for an answer for as many polls.
  abbrev pub driver : ℕ → NfcHw
  driver polls = record { World = State; write = write; read = read polls }

  -- The controller raises its interrupt line within a number of polls.
  pub data Raises : ℕ → State → Type 0 where
    at_once : {polls : ℕ} {s : State} → (b.digital_read irq s).0 ≡ true → Raises (suc polls) s
    later :
        {polls : ℕ} {s : State}
        → Raises polls (b.delay 10 (b.digital_read irq s).1)
        → Raises (suc polls) s

  wait-Raises : (polls : ℕ) (s : State) → Raises polls s → (s' : State) × (wait polls s ≡ done s')
  unfolding wait
  wait-Raises zero s x = elim x [ ]
  wait-Raises (suc polls) s (at_once e) = ((b.digital_read irq s).1, rw (wait, e))
  wait-Raises (suc polls) s (later r) = elim (Bool-cases (b.digital_read irq s).0) [
    | inl high ↦ ((b.digital_read irq s).1, rw (wait, high))
    | inr low ↦
        let (s', e) = wait-Raises polls (b.delay 10 (b.digital_read irq s).1) r in
        (s', rw (wait, low) e)
  ]

  module _ (wire : Buffers b) where
    -- The bytes stored: one at least, and no more than are pending.
    Stored : ℕ → State → Type 0
    Stored rounds s =
        (bytes : List ℕ) × (s' : State) × (read_bytes rounds s ≡ done (bytes, s'))
        × (length bytes ≤ max 1 (wire.pending s))
        × IsBytes bytes

    read_bytes-Stored :
        (rounds : ℕ) (s : State) → 1 ≤ rounds → wire.pending s ≤ rounds → Stored rounds s
    unfolding read_bytes Stored
    read_bytes-Stored zero s h k = absurd (omega arith)
    read_bytes-Stored (suc rounds) s h k = elim (zero_or_suc (wire.pending (b.read s).1)) [
      | inl last ↦ (
        (b.read s).0 % 256 ∷ [],
        (b.read s).1,
        rw (
          read_bytes,
          ap (λ r. r.0) (wire.counts (b.read s).1),
          last,
          ap (λ r. r.1) (wire.counts (b.read s).1),
        ),
        omega arith,
        (omega arith, tt),
      )
      | inr (m, more) ↦
          let t = wire.takes s in
          let (bytes, s', e, l, y) =
            read_bytes-Stored rounds (b.read s).1 (omega arith) (omega arith) in
          (
            (b.read s).0 % 256 ∷ bytes,
            s',
            rw (
              read_bytes,
              ap (λ r. r.0) (wire.counts (b.read s).1),
              more,
              ap (λ r. r.1) (wire.counts (b.read s).1),
              e,
            ),
            omega arith,
            (omega arith, y),
          )
    ]

    -- Over a Wire library that behaves as documented and a controller that raises its interrupt line
    -- within the number of polls, a read of the driver is one that the NCI layer can rely on: it returns,
    -- its result is the number of bytes asked for as a uint8_t, and it stores no more bytes than that (and
    -- one if none was asked for).
    pub read-Reads :
        (polls : ℕ)
        → ((s : State) → Raises polls s)
        → (n : ℕ) (s : State) → Reads (driver polls) n s
    unfolding read Stored
    read-Reads polls rises n s =
        let (s1, e) = wait-Raises polls s (rises s) in
        let s2 = b.request_from address n s1 in
        let f = wire.fills address n s1 in
        let (bytes, s', e', l, y) = read_bytes-Stored (max 1 n) s2 (omega arith) (omega arith) in
        reads bytes (n % 256) s' (rw (e, e')) (omega arith) y refl

    -- The driver under the NCI layer.
    pub driver-IsResponsive :
        (polls : ℕ) → ((s : State) → Raises polls s) → IsResponsive (driver polls)
    driver-IsResponsive polls rises = read-Reads polls rises
