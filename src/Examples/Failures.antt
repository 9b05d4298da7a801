-- ===== src/Examples/Failures.antt =====
-- examples: a message without blocks, and a notification that is too short, over the scripted controller.
use arduino_nfc.Common.{ℕ, ◌≡◌, refl, List, [], ◌∷◌, arith}
use arduino_nfc.Common.Outcome.{done}
use arduino_nfc.Nci.Types.{NfcNci, rfst_discovery, rfst_poll_active}
use arduino_nfc.Nci.Events.Receiving.{Packet}
use arduino_nfc.Tags.Types.{
  NfcTags, dumping, discover_ntf, no_tag, to_tag2, t2_dump_rsp, t2_none, tags_id_discover,
}
use arduino_nfc.Sketch.{pass}
use arduino_nfc.Sketch.Application.{dump_application}
use arduino_nfc.Sketch.Exchanges.{Stage}
use arduino_nfc.Sketch.Repeats.{Looks}
use arduino_nfc.Sketch.Dump
use arduino_nfc.Sketch.Dump.{dump_sketch}
use arduino_nfc.Sketch.Detect
use arduino_nfc.Sketch.Detect.{detect_sketch, detect_handle_event}
use arduino_nfc.Sketch.Corrupted.{bad_status, corrupted-Looks}
use arduino_nfc.Sketch.Malformed.{short_announcement}
use arduino_nfc.Examples.{scripted, nci_in, tags_in, type2_in}
use arduino_nfc.Examples.Cycle.{released, scripted-Releases}
use arduino_nfc.Examples.Controller.{sent, scripted-Gives, are_bytes-IsBytes}

-- Sixteen bytes, with a status that is not 0.
abbrev corrupted : Packet
corrupted = record {
  byte0 = 0;
  byte1 = 0;
  first = 1;
  rest = 2 ∷ 3 ∷ 4 ∷ 5 ∷ 6 ∷ 7 ∷ 8 ∷ 9 ∷ 10 ∷ 11 ∷ 12 ∷ 13 ∷ 14 ∷ 15 ∷ 16 ∷ 1 ∷ [];
}

abbrev sixteen : List ℕ
sixteen = 1 ∷ 2 ∷ 3 ∷ 4 ∷ 5 ∷ 6 ∷ 7 ∷ 8 ∷ 9 ∷ 10 ∷ 11 ∷ 12 ∷ 13 ∷ 14 ∷ 15 ∷ 16 ∷ []

abbrev reading : NfcTags
reading = tags_in dumping 5 to_tag2 (type2_in t2_dump_rsp 4)

abbrev active : NfcNci
active = nci_in rfst_poll_active []

corrupted-Looks_example :
    Looks scripted dump_sketch dump_application 3 Dump.st_dump_response reading active
      (sent corrupted (released []))
      []
corrupted-Looks_example =
    corrupted-Looks scripted corrupted reading active (sent corrupted (released [])) (released [])
      []
      (record {
        tags = refl;
        tags_id = refl;
        intf = refl;
        tag = refl;
        registered = refl;
        nci = refl;
        nci_registered = refl;
      })
      refl refl (scripted-Gives corrupted (released []) refl) refl
      (bad_status sixteen 1 refl refl (ground arith) (are_bytes-IsBytes (1 ∷ corrupted.rest) refl))
      (scripted-Releases [])

-- A notification with one byte.
abbrev short : Packet
short = record { byte0 = 0x61; byte1 = 5; first = 1; rest = [] }

abbrev looking_tags : NfcTags
looking_tags = tags_in discover_ntf 2 no_tag (type2_in t2_none 0)

abbrev looking_nci : NfcNci
looking_nci = nci_in rfst_discovery []

short_announcement_example :
    (t' : NfcTags) × (n' : NfcNci) × Stage discover_ntf tags_id_discover rfst_discovery t' n'
    × (pass dump_sketch scripted Dump.st_discovering looking_tags looking_nci (sent short [])
        ≡ done (Dump.st_error, t', n', []))
    × (pass detect_sketch scripted Detect.st_discovering looking_tags looking_nci (sent short [])
        ≡ done (Detect.st_deactivate, t', n', []))
    × (detect_handle_event Detect.st_deactivate t' ≡ done (Detect.st_error, t'))
short_announcement_example =
    short_announcement scripted short looking_tags looking_nci (sent short []) []
      (record {
        tags = refl;
        tags_id = refl;
        nci = refl;
        intf = refl;
        idle = record { registered = refl; tag_registered = refl; tag_idle = refl };
        nci_registered = refl;
      })
      refl (scripted-Gives short [] refl) refl refl (omega arith)
