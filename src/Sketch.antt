-- ===== src/Sketch.antt =====
-- examples/TagDetect/TagDetect.ino and examples/TagDump/TagDump.ino: what the two sketches share, their
-- `setup` and their `loop`.
pub mod Dump
pub mod Detect
pub mod Ready
pub mod Passes
pub mod Accepted
pub mod Still
pub mod Detecting
pub mod Agreement
pub mod Application
pub mod Exchanges
pub mod Repeats
pub mod BringUp
pub mod Visits
pub mod Release
pub mod Detection
pub mod Waiting
pub mod Blocks
pub mod Dumping
pub mod Cycle
pub mod Endless
pub mod Interrupted
pub mod Corrupted
pub mod Malformed
use arduino_nfc.Common.{ℕ, zero, suc, Option, none, some, true}
use arduino_nfc.Common.Outcome.{Outcome, done, ◌>>=◌}
use arduino_nfc.Hw.{NfcHw}
use arduino_nfc.Nci.Types.{NfcNci}
use arduino_nfc.Nci.Session
use arduino_nfc.Tags.Types.{NfcTags, AppCall}
use arduino_nfc.Tags.Stack
use arduino_nfc.Tags.Handlers.{handle_event}
use arduino_nfc.Tags.System.{nci_turn}

-- class NfcApps of a sketch, whose only member that changes is its state. `receive` is the callback that
-- the tag API calls, with the objects of both layers at that time.
pub record Sketch : Type 1 where
  pub State : Type 0
  pub start : State
  pub handle_event : State → NfcTags → Outcome (State × NfcTags)
  pub receive : AppCall → State → NfcTags → NfcNci → Outcome State

-- `_nci.init(&_tags)` and `_tags.init(&_app)`. The serial line and the pins are left out.
unfoldable pub setup : NfcTags → NfcNci → NfcTags × NfcNci
setup t n = (Stack.init true t, Session.init true n)

module _ (sk : Sketch) where
  -- The callback, if there is one.
  unfoldable pub tell : Option AppCall → sk.State → NfcTags → NfcNci → Outcome sk.State
  tell none a t n = done a
  tell (some c) a t n = sk.receive c a t n

  module _ (hw : NfcHw) where
    open hw use {World}

    -- The four objects and the world.
    abbrev pub Pass : Type 0
    Pass = Outcome (sk.State × NfcTags × NfcNci × World)

    -- A turn of a layer, and the callback that it makes.
    unfoldable pub turn : sk.State → Outcome (Option AppCall × NfcTags × NfcNci × World) → Pass
    turn a r = do (c, t, n, w) ← r; a' ← tell c a t n; done (a', t, n, w)

    -- `_tags.handleEvent(); _nci.handleEvent()`
    unfoldable pub layers : sk.State → NfcTags → NfcNci → World → Pass
    layers a t n w = do
      (a', t', n', w') ← turn a (handle_event hw t n w)
      turn a' (nci_turn hw t' n' w')

    -- `loop`, once.
    unfoldable pub pass : sk.State → NfcTags → NfcNci → World → Pass
    pass a t n w = do (a', t') ← sk.handle_event a t; layers a' t' n w

    -- `loop`, so many times.
    unfoldable pub passes : ℕ → sk.State → NfcTags → NfcNci → World → Pass
    passes zero a t n w = done (a, t, n, w)
    passes (suc k) a t n w = pass a t n w >>= λ r. passes k r.0 r.1 r.2 r.3
