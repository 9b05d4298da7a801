-- ===== src/Log/Levels.antt =====
-- src/log/NfcLog.h: the object with its level, and the methods that print on one level.
use arduino_nfc.Common.{ℕ, ◌≡◌, refl, List, []}
use arduino_nfc.Common.Outcome.{Outcome, done}
use arduino_nfc.Log.{Piece, print, print_loop, print_buffer}

abbrev pub level_off : ℕ
level_off = 0

abbrev pub level_error : ℕ
level_error = 1

abbrev pub level_info : ℕ
level_info = 2

abbrev pub level_debug : ℕ
level_debug = 3

abbrev pub level_verbose : ℕ
level_verbose = 4

pub record NfcLog : Type 0 where
  pub level : ℕ

abbrev pub construct_log : ℕ → NfcLog
construct_log level = record { level = level }

module _ (memory : ℕ → List ℕ) where
  unfoldable pub v : NfcLog → List ℕ → List ℕ → Outcome (List Piece)
  v log str args = print memory log.level level_verbose str args

  unfoldable pub d : NfcLog → List ℕ → List ℕ → Outcome (List Piece)
  d log str args = print memory log.level level_debug str args

  unfoldable pub i : NfcLog → List ℕ → List ℕ → Outcome (List Piece)
  i log str args = print memory log.level level_info str args

  unfoldable pub e : NfcLog → List ℕ → List ℕ → Outcome (List Piece)
  e log str args = print memory log.level level_error str args

unfoldable pub bv : NfcLog → List ℕ → ℕ → List ℕ → List Piece
bv log str address bytes = print_buffer log.level level_verbose str address bytes

unfoldable pub bi : NfcLog → List ℕ → ℕ → List ℕ → List Piece
bi log str address bytes = print_buffer log.level level_info str address bytes

module _ (memory : ℕ → List ℕ) (str args : List ℕ) where
  -- An object of the level that the sketches give prints nothing of the lines of the levels debug and
  -- verbose, whatever arguments they lack, and the lines of the levels info and error as the loop does.
  pub info_lines :
      (d memory (construct_log level_info) str args ≡ done [])
      × (v memory (construct_log level_info) str args ≡ done [])
      × (i memory (construct_log level_info) str args ≡ print_loop memory str args)
      × (e memory (construct_log level_info) str args ≡ print_loop memory str args)
  unfolding d v i e print
  info_lines = (refl, refl, refl, refl)
