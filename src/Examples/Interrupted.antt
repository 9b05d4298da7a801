-- ===== src/Examples/Interrupted.antt =====
-- examples/TagDump/TagDump.ino: a dump whose tag is taken away, over the scripted controller.
use arduino_nfc.Common.{ℕ, ◌≡◌, refl, List, [], ◌∷◌}
use arduino_nfc.Common.Outcome.{done}
use arduino_nfc.Nci.Types.{NfcNci, rfst_poll_active}
use arduino_nfc.Nci.Events.Receiving.{Packet}
use arduino_nfc.Tags.Types.{NfcTags, dumping, to_tag2, t2_dump_rsp}
use arduino_nfc.Sketch.{passes}
use arduino_nfc.Sketch.Dump.{dump_sketch, st_dump_response, st_error}
use arduino_nfc.Sketch.Waiting.{AwaitsBlocks, CoreNotice, then_notice, no_notice}
use arduino_nfc.Sketch.Interrupted.{DeactivateNotice, dump_interrupted}
use arduino_nfc.Examples.{scripted, nci_in, tags_in, type2_in}
use arduino_nfc.Examples.Cycle.{credits, credits-CoreNotice}
use arduino_nfc.Examples.Controller.{sent, scripted-Gives}

-- The notification of an error of the interface, with a status and a connection.
abbrev lost : Packet
lost = record { byte0 = 0x60; byte1 = 8; first = 0xB2; rest = 0 ∷ [] }

abbrev gone : Packet
gone = record { byte0 = 0x61; byte1 = 6; first = 3; rest = 2 ∷ [] }

abbrev after_gone : List ℕ
after_gone = sent lost []

abbrev script : List ℕ
script = sent credits (sent lost (sent gone after_gone))

lost-CoreNotice : (rest : List ℕ) → CoreNotice scripted (sent lost rest) rest
lost-CoreNotice rest = (lost, scripted-Gives lost rest refl, refl)

gone-DeactivateNotice : (rest : List ℕ) → DeactivateNotice scripted (sent gone rest) rest
gone-DeactivateNotice rest = (gone, scripted-Gives gone rest refl, refl, refl)

abbrev reading : NfcTags
reading = tags_in dumping 5 to_tag2 (type2_in t2_dump_rsp 4)

abbrev active : NfcNci
active = nci_in rfst_poll_active []

dump_interrupted_example :
    (t' : NfcTags) × (n' : NfcNci) × AwaitsBlocks t' n'
    × (passes dump_sketch scripted 4 st_dump_response reading active script
        ≡ done (st_error, t', n', []))
dump_interrupted_example =
    dump_interrupted scripted 2 1 reading active script (sent gone after_gone) after_gone []
      (record {
        tags = refl;
        tags_id = refl;
        intf = refl;
        tag = refl;
        registered = refl;
        nci = refl;
        nci_registered = refl;
      })
      (then_notice (credits-CoreNotice _) (then_notice (lost-CoreNotice _) no_notice))
      (gone-DeactivateNotice after_gone) (then_notice (lost-CoreNotice _) no_notice)
