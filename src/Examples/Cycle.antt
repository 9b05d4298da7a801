-- ===== src/Examples/Cycle.antt =====
-- examples/TagDump/TagDump.ino: a tag that is found and dumped, over the scripted controller.
use arduino_nfc.Common.{ℕ, ◌≡◌, refl, some, List, [], ◌∷◌, arith}
use arduino_nfc.Common.Outcome.{done}
use arduino_nfc.Nci.Types.{NfcNci, rfst_discovery}
use arduino_nfc.Nci.Events.Receiving.{Packet, payload}
use arduino_nfc.Nci.Events.Notification.{Announced, encode}
use arduino_nfc.Tags.Types.{NfcTags, discover_ntf, tags_id_discover}
use arduino_nfc.Sketch.{setup, passes}
use arduino_nfc.Sketch.Dump
use arduino_nfc.Sketch.Detect
use arduino_nfc.Sketch.Detect.{detect_sketch}
use arduino_nfc.Sketch.Exchanges.{Stage}
use arduino_nfc.Sketch.Release.{Releases}
use arduino_nfc.Sketch.Visits.{visit, no_visit}
use arduino_nfc.Sketch.Endless.{
  DumpVisit, dump_notice, other_tag, dumped, DetectVisit, detect_notice, detected, tags_dumped,
  tags_detected,
}
use arduino_nfc.Sketch.Dump.{dump_sketch, st_discovering, st_deactivate}
use arduino_nfc.Sketch.Dumping.{Reads}
use arduino_nfc.Sketch.Waiting.{CoreNotice, no_notice, then_notice}
use arduino_nfc.Sketch.Detection.{Announces}
use arduino_nfc.Sketch.Cycle.{Dumps}
use arduino_nfc.Examples.{scripted}
use arduino_nfc.Examples.Controller.{sent, scripted-Gives, are_bytes-IsBytes}
use arduino_nfc.Examples.Sketches.{
  new_tags, new_nci, responses, scripted-Cooperates, new_objects-Fresh,
}
use arduino_nfc.Examples.Activations.{ultralight, ultralight-IsBytes}

abbrev blocks : List ℕ
blocks = 1 ∷ 2 ∷ 3 ∷ 4 ∷ 5 ∷ 6 ∷ 7 ∷ 8 ∷ 9 ∷ 10 ∷ 11 ∷ 12 ∷ 13 ∷ 14 ∷ 15 ∷ 16 ∷ []

abbrev answer : Packet
answer = record {
  byte0 = 0;
  byte1 = 0;
  first = 1;
  rest = 2 ∷ 3 ∷ 4 ∷ 5 ∷ 6 ∷ 7 ∷ 8 ∷ 9 ∷ 10 ∷ 11 ∷ 12 ∷ 13 ∷ 14 ∷ 15 ∷ 16 ∷ 0 ∷ [];
}

-- The notification of the credits of a connection.
abbrev pub credits : Packet
credits = record { byte0 = 0x60; byte1 = 6; first = 1; rest = 0 ∷ 1 ∷ [] }

pub credits-CoreNotice : (rest : List ℕ) → CoreNotice scripted (sent credits rest) rest
credits-CoreNotice rest = (credits, scripted-Gives credits rest refl, refl)

-- The answer to a READ command, after a notification.
abbrev answered : List ℕ → List ℕ
answered rest = sent credits (sent answer rest)

abbrev answers : List ℕ → List ℕ
answers rest = answered (answered (answered (answered rest)))

answered-Reads : (block : ℕ) (rest : List ℕ) → Reads scripted block 1 (answered rest) rest
answered-Reads block rest = record {
  mid = sent answer rest;
  notices = then_notice (credits-CoreNotice (sent answer rest)) no_notice;
  blocks = blocks;
  packet = answer;
  gives = scripted-Gives answer rest refl;
  carries = record {
    byte0 = refl;
    content = refl;
    bytes = are_bytes-IsBytes (payload answer) refl;
    size = refl;
  };
}

abbrev notification : Packet
notification = record {
  byte0 = 97;
  byte1 = 5;
  first = 1;
  rest =
      1 ∷ 2 ∷ 0 ∷ 255 ∷ 1 ∷ 12 ∷ 68 ∷ 0 ∷ 7 ∷ 4 ∷ 17 ∷ 34 ∷ 51 ∷ 68 ∷ 85 ∷ 102 ∷ 1 ∷ 0 ∷ 0 ∷ 0 ∷ 0
      ∷ 0 ∷ [];
}

ultralight-Announces : Announces ultralight notification
unfolding encode
ultralight-Announces = record {
  byte0 = refl;
  byte1 = refl;
  payload = refl;
  bytes = are_bytes-IsBytes (payload notification) refl;
  nfcid_bytes = ultralight-IsBytes;
  fits = omega arith;
}

ultralight-Dumps : (rest : List ℕ) → Dumps scripted 4 (sent notification (answers rest)) rest
ultralight-Dumps rest = record {
  tag = ultralight;
  notification = notification;
  announces = ultralight-Announces;
  of_type_2 = refl;
  takes = λ block w. refl;
  w0 = answers rest;
  w1 = answered (answered (answered rest));
  w2 = answered (answered rest);
  w3 = answered rest;
  k0 = 1;
  k1 = 1;
  k2 = 1;
  k3 = 1;
  total = refl;
  gives = scripted-Gives notification (answers rest) refl;
  read0 = answered-Reads 0 _;
  read4 = answered-Reads 4 _;
  read8 = answered-Reads 8 _;
  read12 = answered-Reads 12 _;
}

-- The response to the deactivation, and its notification.
abbrev deactivate_rsp : Packet
deactivate_rsp = record { byte0 = 0x41; byte1 = 6; first = 0; rest = [] }

abbrev deactivate_ntf : Packet
deactivate_ntf = record { byte0 = 0x61; byte1 = 6; first = 3; rest = 0 ∷ [] }

abbrev pub released : List ℕ → List ℕ
released rest = sent deactivate_rsp (sent deactivate_ntf rest)

pub scripted-Releases : (rest : List ℕ) → Releases scripted (released rest) rest
scripted-Releases rest = record {
  mid = sent deactivate_ntf rest;
  response = (
    deactivate_rsp,
    (refl, refl, refl, refl),
    record { takes = refl; gives = scripted-Gives deactivate_rsp _ refl },
  );
  notification = deactivate_ntf;
  gives = scripted-Gives deactivate_ntf rest refl;
  is_release = record { byte0 = refl; byte1 = refl; size = refl };
}

-- A Mifare Classic, which the dump sketch lets go.
abbrev classic : Announced
classic = record ultralight { nfcid = 1 ∷ 2 ∷ 3 ∷ 4 ∷ []; sel_res = some 8 }

abbrev classic_notification : Packet
classic_notification = record {
  byte0 = 97;
  byte1 = 5;
  first = 1;
  rest = 1 ∷ 2 ∷ 0 ∷ 255 ∷ 1 ∷ 9 ∷ 68 ∷ 0 ∷ 4 ∷ 1 ∷ 2 ∷ 3 ∷ 4 ∷ 1 ∷ 8 ∷ 0 ∷ 0 ∷ 0 ∷ 0 ∷ [];
}

classic-Announces : Announces classic classic_notification
unfolding encode
classic-Announces = record {
  byte0 = refl;
  byte1 = refl;
  payload = refl;
  bytes = are_bytes-IsBytes (payload classic_notification) refl;
  nfcid_bytes = are_bytes-IsBytes classic.nfcid refl;
  fits = omega arith;
}

abbrev classic_script : List ℕ → List ℕ
classic_script rest = sent classic_notification (released rest)

classic-DumpVisit : (rest : List ℕ) → DumpVisit scripted 3 (classic_script rest) rest
classic-DumpVisit rest =
    other_tag {tag = classic} (λ e. ground arith)
      (record {
        notification = classic_notification;
        announces = classic-Announces;
        gives = scripted-Gives classic_notification (released rest) refl;
      })
      (scripted-Releases rest)

-- A tag that is dumped, a notification, one that is let go, and another one that is dumped.
abbrev dump_script : List ℕ → List ℕ
dump_script rest = sent notification (answers (released rest))

ultralight-DumpVisit : (rest : List ℕ) → DumpVisit scripted 11 (dump_script rest) rest
ultralight-DumpVisit rest = dumped (ultralight-Dumps (released rest)) (scripted-Releases rest)

abbrev two_dumps : List ℕ
two_dumps = dump_script (sent credits (classic_script (dump_script [])))

tags_dumped_example :
    (t' : NfcTags) × (n' : NfcNci) × Stage discover_ntf tags_id_discover rfst_discovery t' n'
    × (passes dump_sketch scripted 30 Dump.st_reset
          (setup new_tags new_nci).0
          (setup new_tags new_nci).1
          (responses two_dumps)
        ≡ done (Dump.st_discovering, t', n', []))
tags_dumped_example =
    tags_dumped scripted 26 new_tags new_nci (responses two_dumps) two_dumps [] new_objects-Fresh
      (scripted-Cooperates two_dumps)
      (visit (ultralight-DumpVisit (sent credits (classic_script (dump_script [])))) (
        visit (dump_notice (credits-CoreNotice (classic_script (dump_script []))))
          (visit (classic-DumpVisit (dump_script [])) (visit (ultralight-DumpVisit []) no_visit))))

-- A tag that is detected, a notification, and another tag.
abbrev detect_script : List ℕ → List ℕ
detect_script rest = sent notification (released rest)

ultralight-DetectVisit : (rest : List ℕ) → DetectVisit scripted 3 (detect_script rest) rest
ultralight-DetectVisit rest =
    detected {tag = ultralight}
      (record {
        notification = notification;
        announces = ultralight-Announces;
        gives = scripted-Gives notification (released rest) refl;
      })
      (scripted-Releases rest)

abbrev two_tags : List ℕ
two_tags = detect_script (sent credits (detect_script []))

tags_detected_example :
    (t' : NfcTags) × (n' : NfcNci) × Stage discover_ntf tags_id_discover rfst_discovery t' n'
    × (passes detect_sketch scripted 11 Detect.st_reset
          (setup new_tags new_nci).0
          (setup new_tags new_nci).1
          (responses two_tags)
        ≡ done (Detect.st_discovering, t', n', []))
tags_detected_example =
    tags_detected scripted 7 new_tags new_nci (responses two_tags) two_tags [] new_objects-Fresh
      (scripted-Cooperates two_tags)
      (visit (ultralight-DetectVisit (sent credits (detect_script []))) (
        visit (detect_notice (credits-CoreNotice (detect_script [])))
          (visit (ultralight-DetectVisit []) no_visit)))
