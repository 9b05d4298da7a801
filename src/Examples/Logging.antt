-- ===== src/Examples/Logging.antt =====
-- src/log/NfcLog.cpp: formats with their arguments.
use arduino_nfc.Common.{ℕ, ◌≤◌, ◌<◌, ◌≡◌, ◌↔◌, List, [], ◌∷◌, length}
use arduino_nfc.Common.Outcome.{done, fault, Completes}
use arduino_nfc.Log.Formats.{
  Part, plain, shown, format_of, message, shown_count, print_loop-format_of, format_of-Completes,
}
use arduino_nfc.Log.{char, dec, as_dec, print_loop}

-- "A%d%%".
abbrev parts : List Part
parts = plain 65 ∷ shown as_dec ∷ plain 37 ∷ []

print_loop-format_of_example :
    print_loop (λ p. []) (format_of parts) (7 ∷ []) ≡ done (char 65 ∷ dec 7 ∷ char 37 ∷ [])
unfolding format_of message
print_loop-format_of_example = print_loop-format_of (λ p. []) parts (7 ∷ [])

-- "%d", without an argument.
format_of-Completes_example :
    (Completes (print_loop (λ p. []) (37 ∷ 100 ∷ []) []) ↔ (1 ≤ length {A = ℕ} []))
    × (length {A = ℕ} [] < 1 → print_loop (λ p. []) (37 ∷ 100 ∷ []) [] ≡ fault)
unfolding format_of shown_count
format_of-Completes_example = format_of-Completes (λ p. []) (shown as_dec ∷ []) []
