-- ===== src/Sketch/Endless.antt =====
-- examples: the two sketches on any number of tags.
use arduino_nfc.Common.{ℕ, ◌+◌, ◌≡◌, ◌≢◌, inl, inr, refl, ◌∙◌, ap, Option, none, some, arith}
use arduino_nfc.Common.Outcome.{done}
use arduino_nfc.Hw.{NfcHw}
use arduino_nfc.Nci.Types.{NfcNci, rfst_discovery}
use arduino_nfc.Nci.Events.Receiving.{Packet, Gives}
use arduino_nfc.Nci.Events.Notification.{Announced}
use arduino_nfc.Tags.Types.{
  NfcTags, TagIntf, no_tag, to_tag2, to_mifare, discover_ntf, tags_id_discover, cb_discover_ntf,
  tags_id_discover_activated,
}
use arduino_nfc.Tags.Type2.{get_nfcid_len, get_nfcid_buf}
use arduino_nfc.Tags.Interface.{get_type, intf_get_nfcid_len, intf_get_nfcid_buf}
use arduino_nfc.Tags.Stack.{rf_intf_at}
use arduino_nfc.Tags.Progress.{call_of}
use arduino_nfc.Tags.Found.{interface_for}
use arduino_nfc.Sketch.{Sketch, setup, passes}
use arduino_nfc.Sketch.Application.{Application, dump_application, detect_application}
use arduino_nfc.Sketch.Dump
use arduino_nfc.Sketch.Dump.{dump_sketch, dump_receive, dump_cb_discover_ntf}
use arduino_nfc.Sketch.Detect
use arduino_nfc.Sketch.Detect.{detect_sketch, detect_receive, detect_cb_discover_ntf}
use arduino_nfc.Sketch.Exchanges.{Stage}
use arduino_nfc.Sketch.Repeats.{passes_add, Looks}
use arduino_nfc.Sketch.BringUp.{Fresh, Cooperates}
use arduino_nfc.Sketch.Visits.{Visits, LeadsBack, bring_up-Looks}
use arduino_nfc.Sketch.Waiting.{CoreNotice, pass_searching}
use arduino_nfc.Sketch.Release.{Releases, let_go}
use arduino_nfc.Sketch.Detection.{Announces, PointsTo, pass_found}
use arduino_nfc.Sketch.Cycle.{Dumps, tag_dumped}

-- A tag of any kind is let go.
tag_let_go :
    (o : Option TagIntf) (t : NfcTags) (n : NfcNci)
    → o ≢ some no_tag
    → PointsTo o t
    → detect_receive (call_of cb_discover_ntf tags_id_discover_activated) Detect.st_discovering t n
      ≡ done Detect.st_deactivate
unfolding detect_receive detect_cb_discover_ntf get_type intf_get_nfcid_len intf_get_nfcid_buf
    get_nfcid_len get_nfcid_buf rf_intf_at
tag_let_go none t n k h = rw h
tag_let_go (some no_tag) t n k h = absurd (k refl)
tag_let_go (some to_tag2) t n k h = rw (h.0, h.1)
tag_let_go (some to_mifare) t n k h = rw (h.0, h.1)

-- The dump sketch lets a tag of another type go.
other_let_go :
    (o : Option TagIntf) (t : NfcTags) (n : NfcNci)
    → o ≢ some no_tag
    → o ≢ some to_tag2
    → PointsTo o t
    → dump_receive (call_of cb_discover_ntf tags_id_discover_activated) Dump.st_discovering t n
      ≡ done Dump.st_deactivate
unfolding dump_receive dump_cb_discover_ntf get_type intf_get_nfcid_len intf_get_nfcid_buf
    get_nfcid_len get_nfcid_buf rf_intf_at
other_let_go none t n k j h = rw h
other_let_go (some no_tag) t n k j h = absurd (k refl)
other_let_go (some to_tag2) t n k j h = absurd (j refl)
other_let_go (some to_mifare) t n k j h = rw (h.0, h.1)

interface_for-ne-no_tag : (a : Announced) → interface_for a ≢ some no_tag
interface_for-ne-no_tag a = ground arith

module _ (hw : NfcHw) where
  open hw use {World}

  -- A tag in mode A is announced.
  pub record Detected (tag : Announced) (w w' : World) : Type 0 where
    pub notification : Packet
    pub announces : Announces tag notification
    pub gives : Gives hw notification w w'

  -- A tag of type 2 is announced, read, and let go; a tag of another type is announced and let go; or the
  -- controller sends a notification that both layers pass over. With the passes that this takes.
  pub data DumpVisit : ℕ → World → World → Type 0 where
    dump_notice : {w w' : World} → CoreNotice hw w w' → DumpVisit 1 w w'
    other_tag :
        {tag : Announced} {w v w' : World}
        → interface_for tag ≢ some to_tag2
        → Detected tag w v
        → Releases hw v w'
        → DumpVisit 3 w w'
    dumped : {k : ℕ} {w v w' : World} → Dumps hw k w v → Releases hw v w' → DumpVisit (7 + k) w w'

  -- A tag of any type is announced and let go; or a notification that both layers pass over.
  pub data DetectVisit : ℕ → World → World → Type 0 where
    detect_notice : {w w' : World} → CoreNotice hw w w' → DetectVisit 1 w w'
    detected :
        {tag : Announced} {w v w' : World}
        → Detected tag w v
        → Releases hw v w'
        → DetectVisit 3 w w'

  module _ (sk : Sketch) (app : Application sk) where
    -- A tag that the sketch lets go at once.
    passed_by :
        (tag : Announced) (t : NfcTags) (n : NfcNci) (w v w' : World)
        → ((t' : NfcTags) (n' : NfcNci)
            → PointsTo (interface_for tag) t'
            → sk.receive (call_of cb_discover_ntf tags_id_discover_activated) app.discovering t' n'
              ≡ done app.deactivate)
        → Stage discover_ntf tags_id_discover rfst_discovery t n
        → Detected tag w v
        → Releases hw v w'
        → Looks hw sk app 3 app.discovering t n w w'
    unfolding passes
    passed_by tag t n w v w' heard g c r =
        let (t1, n1, a, e1) =
          pass_found hw sk app tag c.notification t n w v app.deactivate g c.gives c.announces
            heard in
        let (t2, n2, g2, e2) =
          let_go hw sk app t1 n1 v w' (inl a.tags) a.idle a.nci a.nci_registered r in
        (t2, n2, g2, rw e1 e2)

  DumpVisit-LeadsBack : LeadsBack hw dump_sketch dump_application DumpVisit
  unfolding dump_application passes
  DumpVisit-LeadsBack _ t n w w' g (dump_notice c) =
      let (t1, n1, g1, e1) = pass_searching hw dump_sketch dump_application t n w w' g c in
      (t1, n1, g1, rw e1)
  DumpVisit-LeadsBack _ t n w w' g (other_tag {tag = tag} {v = v} other c r) =
      passed_by dump_sketch dump_application tag t n w v w'
        (λ t' n' h. other_let_go (interface_for tag) t' n' (interface_for-ne-no_tag tag) other h) g
        c r
  DumpVisit-LeadsBack _ t n w w' g (dumped {k = k} {v = v} c r) =
      let (t1, n1, o, s, a, m, e1) = tag_dumped hw k t n w v g c in
      let (t2, n2, g2, e2) = let_go hw dump_sketch dump_application t1 n1 v w' (inr s) o a m r in
      let count : 7 + k ≡ (5 + k) + 2 = omega arith in
      (
        t2,
        n2,
        g2,
        ap (λ j. passes dump_sketch hw j Dump.st_discovering t n w) count
            ∙ passes_add hw dump_sketch (5 + k) 2 Dump.st_discovering t n w
            ∙ rw e1 e2,
      )

  DetectVisit-LeadsBack : LeadsBack hw detect_sketch detect_application DetectVisit
  unfolding detect_application passes
  DetectVisit-LeadsBack _ t n w w' g (detect_notice c) =
      let (t1, n1, g1, e1) = pass_searching hw detect_sketch detect_application t n w w' g c in
      (t1, n1, g1, rw e1)
  DetectVisit-LeadsBack _ t n w w' g (detected {tag = tag} {v = v} c r) =
      passed_by detect_sketch detect_application tag t n w v w'
        (λ t' n' h. tag_let_go (interface_for tag) t' n' (interface_for-ne-no_tag tag) h) g c r

  -- From new objects, on a controller that answers the four commands of the start and then, in any order
  -- and any number of times, announces a tag of type 2 in mode A, lets it be read and lets it go, announces
  -- another tag in mode A and lets it go, or sends a notification of the core group, also between a READ
  -- command and its answer: `setup`, 4 passes of the loop of the dump sketch, 7 for each tag of type 2, 3
  -- for each other tag and 1 for each of those notifications return, and then the sketch and both
  -- layers look for tags again.
  pub tags_dumped :
      (m : ℕ) (t : NfcTags) (n : NfcNci) (w v w' : World)
      → Fresh t n
      → Cooperates hw w v
      → Visits DumpVisit m v w'
      → (t' : NfcTags) × (n' : NfcNci) × Stage discover_ntf tags_id_discover rfst_discovery t' n'
        × (passes dump_sketch hw (4 + m) Dump.st_reset (setup t n).0 (setup t n).1 w
            ≡ done (Dump.st_discovering, t', n', w'))
  unfolding dump_application
  tags_dumped m t n w v w' fresh c xs =
      bring_up-Looks hw dump_sketch dump_application DumpVisit m t n w v w' DumpVisit-LeadsBack
        fresh c xs

  -- From new objects, on a controller that answers the four commands of the start and then, in any order
  -- and any number of times, announces a tag in mode A, of whatever kind, and lets it go, or sends a
  -- notification of the core group: `setup`, 4 passes of the loop of the sketch that detects tags, 3 for
  -- each tag and 1 for each of those notifications return, and then the sketch and both layers look for
  -- tags again.
  pub tags_detected :
      (m : ℕ) (t : NfcTags) (n : NfcNci) (w v w' : World)
      → Fresh t n
      → Cooperates hw w v
      → Visits DetectVisit m v w'
      → (t' : NfcTags) × (n' : NfcNci) × Stage discover_ntf tags_id_discover rfst_discovery t' n'
        × (passes detect_sketch hw (4 + m) Detect.st_reset (setup t n).0 (setup t n).1 w
            ≡ done (Detect.st_discovering, t', n', w'))
  unfolding detect_application
  tags_detected m t n w v w' fresh c xs =
      bring_up-Looks hw detect_sketch detect_application DetectVisit m t n w v w'
        DetectVisit-LeadsBack fresh c xs
