-- ===== src/Sketch/Visits.antt =====
-- examples: a sketch that meets one tag after another.
use arduino_nfc.Common.{ℕ, ◌+◌, refl, ◌∙◌}
use arduino_nfc.Hw.{NfcHw}
use arduino_nfc.Nci.Types.{NfcNci, rfst_discovery}
use arduino_nfc.Tags.Types.{NfcTags, discover_ntf, tags_id_discover}
use arduino_nfc.Sketch.{Sketch, setup, passes}
use arduino_nfc.Sketch.Application.{Application}
use arduino_nfc.Sketch.Exchanges.{Stage}
use arduino_nfc.Sketch.Repeats.{Looks, passes_add}
use arduino_nfc.Sketch.BringUp.{Fresh, Cooperates, bring_up}

-- The controller goes through visits, each of which takes so many passes of the loop, and all together the
-- sum of those.
pub data Visits {W : Type 0} (Visit : ℕ → W → W → Type 0) : ℕ → W → W → Type 0 where
  no_visit : {w : W} → Visits Visit 0 w w
  visit : {k m : ℕ} {w v w' : W} → Visit k w v → Visits Visit m v w' → Visits Visit (k + m) w w'

module _ (hw : NfcHw) (sk : Sketch) (app : Application sk) where
  open hw use {World}

  module _ (Visit : ℕ → World → World → Type 0) where
    -- A visit leads back to the search for tags.
    abbrev pub LeadsBack : Type 0
    LeadsBack =
        (k : ℕ) (t : NfcTags) (n : NfcNci) (w w' : World)
        → Stage discover_ntf tags_id_discover rfst_discovery t n
        → Visit k w w'
        → Looks hw sk app k app.discovering t n w w'

    pub Visits-Looks :
        {m : ℕ} (t : NfcTags) (n : NfcNci) {w w' : World}
        → LeadsBack
        → Stage discover_ntf tags_id_discover rfst_discovery t n
        → Visits Visit m w w'
        → Looks hw sk app m app.discovering t n w w'
    unfolding passes
    Visits-Looks t n back g no_visit = (t, n, g, refl)
    Visits-Looks t n back g (visit {k = k} {m = m} {w = w} {v = v} {w' = w'} x xs) =
        let (t1, n1, g1, e1) = back k t n w v g x in
        let (t2, n2, g2, e2) = Visits-Looks t1 n1 back g1 xs in
        (t2, n2, g2, passes_add hw sk k m app.discovering t n w ∙ rw e1 e2)

    -- From new objects.
    pub bring_up-Looks :
        (m : ℕ) (t : NfcTags) (n : NfcNci) (w v w' : World)
        → LeadsBack
        → Fresh t n
        → Cooperates hw w v
        → Visits Visit m v w'
        → Looks hw sk app (4 + m) app.reset (setup t n).0 (setup t n).1 w w'
    bring_up-Looks m t n w v w' back fresh c xs =
        let (t1, n1, g1, e1) = bring_up hw sk app t n w v fresh c in
        let (t2, n2, g2, e2) = Visits-Looks t1 n1 back g1 xs in
        (t2, n2, g2, passes_add hw sk 4 m app.reset (setup t n).0 (setup t n).1 w ∙ rw e1 e2)
