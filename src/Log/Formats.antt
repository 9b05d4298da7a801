-- ===== src/Log/Formats.antt =====
-- src/log/NfcLog.cpp: what the loop prints for a format, told by the parts that the format is written from.
use arduino_nfc.Common.{
  ℕ, suc, ◌≡◌, ◌≤◌, ◌<◌, ◌↔◌, ◌∙◌, sym, subst, length, true, refl, ◌==◌, if◌then◌else◌, false,
  Bool-cases, inl, inr, some, List, [], ◌∷◌, ◌++◌, arith,
}
use arduino_nfc.Common.Outcome.{Outcome, done, fault, hang, ◌>>=◌, Completes}
use arduino_nfc.Log.{
  Piece, char, dec, hex, bin, text, Conversion, as_text, as_dec, as_hex, as_0x_hex, as_bin,
  as_0b_bin, as_letter, as_word, directive, pieces, print_loop,
}

-- A part of a message: a character, or an argument and how it is shown.
pub data Part : Type 0 where
  plain : ℕ → Part
  shown : Conversion → Part

-- The character that stands for a conversion.
abbrev letter : Conversion → ℕ
letter as_text = 115
letter as_dec = 100
letter as_hex = 120
letter as_0x_hex = 88
letter as_bin = 98
letter as_0b_bin = 66
letter as_letter = 116
letter as_word = 84

-- The format of a message: a percent sign is doubled.
unfoldable pub format_of : List Part → List ℕ
format_of [] = []
format_of (plain c ∷ ps) = if c == 37 then 37 ∷ 37 ∷ format_of ps else c ∷ format_of ps
format_of (shown k ∷ ps) = 37 ∷ letter k ∷ format_of ps

-- How an argument is shown: as the text at a pointer, in base 10, 16 or 2, plain or behind 0x or 0b, or as
-- a truth value, of which only 1 is true.
abbrev shows : (ℕ → List ℕ) → Conversion → ℕ → List Piece
shows memory as_text v = text (memory v) ∷ []
shows memory as_dec v = dec v ∷ []
shows memory as_hex v = hex v ∷ []
shows memory as_0x_hex v = text (48 ∷ 120 ∷ []) ∷ hex v ∷ []
shows memory as_bin v = bin v ∷ []
shows memory as_0b_bin v = text (48 ∷ 98 ∷ []) ∷ bin v ∷ []
shows memory as_letter v = elim (v == 1) [
  | true ↦ text (84 ∷ []) ∷ []
  | false ↦ text (70 ∷ []) ∷ []
]
shows memory as_word v = elim (v == 1) [
  | true ↦ text (116 ∷ 114 ∷ 117 ∷ 101 ∷ []) ∷ []
  | false ↦ text (102 ∷ 97 ∷ 108 ∷ 115 ∷ 101 ∷ []) ∷ []
]

pieces-shows : (memory : ℕ → List ℕ) (k : Conversion) (v : ℕ) → pieces memory k v ≡ shows memory k v
unfolding pieces
pieces-shows memory as_text v = refl
pieces-shows memory as_dec v = refl
pieces-shows memory as_hex v = refl
pieces-shows memory as_0x_hex v = refl
pieces-shows memory as_bin v = refl
pieces-shows memory as_0b_bin v = refl
pieces-shows memory as_letter v = ground arith
pieces-shows memory as_word v = ground arith

-- The arguments that a message shows.
unfoldable pub shown_count : List Part → ℕ
shown_count [] = 0
shown_count (plain c ∷ ps) = shown_count ps
shown_count (shown k ∷ ps) = suc (shown_count ps)

after-Completes {ℓ κ} :
    {A : Type ℓ} {B : Type κ} (f : A → B) (m : Outcome A)
    → Completes (m >>= λ x. done (f x)) ↔ Completes m
after-Completes f (done x) = (λ h. h, λ h. h)
after-Completes f fault = (λ h. h, λ h. h)
after-Completes f hang = (λ h. h, λ h. h)

module _ (memory : ℕ → List ℕ) where
  -- The message with its arguments, which are used up from the first on.
  unfoldable pub message : List Part → List ℕ → Outcome (List Piece)
  message [] args = done []
  message (plain c ∷ ps) args = do rest ← message ps args; done (char c ∷ rest)
  message (shown k ∷ ps) [] = fault
  message (shown k ∷ ps) (v ∷ vs) = do rest ← message ps vs; done (shows memory k v ++ rest)

  letter_shows : (k : Conversion) → directive (letter k) ≡ some k
  unfolding directive
  letter_shows as_text = refl
  letter_shows as_dec = refl
  letter_shows as_hex = refl
  letter_shows as_0x_hex = refl
  letter_shows as_bin = refl
  letter_shows as_0b_bin = refl
  letter_shows as_letter = refl
  letter_shows as_word = refl

  plain_printed :
      (c : ℕ) (str args : List ℕ)
      → (c == 37) ≡ false
      → print_loop memory (c ∷ str) args ≡ (print_loop memory str args >>= λ qs. done (char c ∷ qs))
  unfolding print_loop
  plain_printed c [] args e = rw e
  plain_printed c (d ∷ str) args e = rw (print_loop, e)

  percent_printed :
      (str args : List ℕ)
      → print_loop memory (37 ∷ 37 ∷ str) args
        ≡ (print_loop memory str args >>= λ qs. done (char 37 ∷ qs))
  unfolding print_loop directive
  percent_printed str args = refl

  -- The loop prints the format that is written from the parts of a message as those parts are, with the
  -- arguments used up from the first on, and reads an argument that was not passed exactly where they do.
  pub print_loop-format_of :
      (ps : List Part) (args : List ℕ) → print_loop memory (format_of ps) args ≡ message ps args
  unfolding print_loop format_of message
  print_loop-format_of [] args = refl
  print_loop-format_of (plain c ∷ ps) args = elim (Bool-cases (c == 37)) [
    | inl e ↦
        let p : c ≡ 37 = ground arith in
        rw (e, p, percent_printed (format_of ps) args, print_loop-format_of ps args)
    | inr e ↦ rw (e, plain_printed c (format_of ps) args e, print_loop-format_of ps args)
  ]
  print_loop-format_of (shown k ∷ ps) [] = rw (print_loop, letter_shows k)
  print_loop-format_of (shown k ∷ ps) (v ∷ vs) =
      rw (print_loop, letter_shows k, pieces-shows memory k v, print_loop-format_of ps vs)

  message-Completes :
      (ps : List Part) (args : List ℕ)
      → Completes (message ps args) ↔ (shown_count ps ≤ length args)
  unfolding message shown_count
  message-Completes [] args = (λ h. omega arith, λ h. tt)
  message-Completes (plain c ∷ ps) args =
      let k = after-Completes (λ qs. char c ∷ qs) (message ps args) in
      let h = message-Completes ps args in (λ x. h.0 (k.0 x), λ x. k.1 (h.1 x))
  message-Completes (shown c ∷ ps) [] = (λ x. absurd x, λ x. absurd (omega arith))
  message-Completes (shown c ∷ ps) (v ∷ vs) =
      let k = after-Completes (λ qs. shows memory c v ++ qs) (message ps vs) in
      let h = message-Completes ps vs in
      (λ x. let l = h.0 (k.0 x) in omega arith, λ x. k.1 (h.1 (omega arith)))

  message-fault :
      (ps : List Part) (args : List ℕ) → length args < shown_count ps → message ps args ≡ fault
  unfolding message shown_count
  message-fault [] args h = absurd (omega arith)
  message-fault (plain c ∷ ps) args h = rw (message-fault ps args h)
  message-fault (shown c ∷ ps) [] h = refl
  message-fault (shown c ∷ ps) (v ∷ vs) h =
      let r : message ps vs ≡ fault = message-fault ps vs (omega arith) in rw (r)

  -- The loop over the format that is written from the parts of a message returns if, and only if, no fewer
  -- arguments are passed than the parts show; otherwise it reads one that was not passed.
  pub format_of-Completes :
      (ps : List Part) (args : List ℕ)
      → (Completes (print_loop memory (format_of ps) args) ↔ (shown_count ps ≤ length args))
        × (length args < shown_count ps → print_loop memory (format_of ps) args ≡ fault)
  format_of-Completes ps args =
      let e = print_loop-format_of ps args in
      (
        subst (λ r. Completes r ↔ (shown_count ps ≤ length args)) (sym e)
            (message-Completes ps args),
        λ h. e ∙ message-fault ps args h,
      )
