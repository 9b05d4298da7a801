-- ===== src/Sketch/Malformed.antt =====
-- examples: both sketches on a notification of a tag that is too short.
use arduino_nfc.Common.{◌<◌, ◌≡◌, ◌∙◌, refl, true, length, some, none, arith}
use arduino_nfc.Common.Outcome.{done}
use arduino_nfc.Hw.{NfcHw}
use arduino_nfc.Nci.Types.{
  NfcNci, DataPtr, null, at_reset, at_rf_intf, at_deactivate, at_rx, Notice, rfst_discovery,
  status_syntax_error, cb_rf_discover_ntf,
}
use arduino_nfc.Nci.Header.{mt_of, pbf_of, gid_of, oid_of, uint16_id}
use arduino_nfc.Nci.Responses.{ntf_rf_intf_activated}
use arduino_nfc.Nci.Events.{handle_packet, handle_rf_event, answer}
use arduino_nfc.Nci.Events.Receiving.{
  Packet, Gives, payload, received, received-Stands, handle_event-Gives,
}
use arduino_nfc.Tags.Types.{
  NfcTags, AppCall, discover_ntf, cb_discover_ntf, tags_id_discover, tags_id_discover_activated,
  tags_status_failed, translate_nci_status,
}
use arduino_nfc.Tags.Stack.{set_nci_response, identify_tag, rf_intf_at, cmd_deactivate}
use arduino_nfc.Tags.Callbacks.{on_notice, on_rf_discover_ntf}
use arduino_nfc.Tags.System.{nci_turn, deliver}
use arduino_nfc.Sketch.{Sketch, tell, turn, layers, pass}
use arduino_nfc.Sketch.Application.{Application, dump_application, detect_application}
use arduino_nfc.Sketch.Exchanges.{Stage}
use arduino_nfc.Sketch.Detection.{discover_ntf_waits}
use arduino_nfc.Sketch.Dump
use arduino_nfc.Sketch.Dump.{dump_sketch, dump_receive, dump_cb_discover_ntf}
use arduino_nfc.Sketch.Detect
use arduino_nfc.Sketch.Detect.{
  detect_sketch, detect_receive, detect_cb_discover_ntf, detect_handle_event,
}

short_route :
    (n : NfcNci)
    → n.state ≡ rfst_discovery
    → n.rx_buf 0 ≡ 0x61
    → n.rx_buf 1 ≡ 5
    → n.rx_buf 2 < 11
    → handle_packet n ≡ answer cb_rf_discover_ntf 3 5 (done (status_syntax_error, n))
unfolding handle_packet handle_rf_event mt_of pbf_of gid_of oid_of ntf_rf_intf_activated
short_route n s b0 b1 l = rw (b0, b1) (ground (arith, s, l))

-- The tag API has noted the failure.
abbrev noted : DataPtr → NfcTags → NfcTags
noted ptr t = set_nci_response status_syntax_error (uint16_id 3 5) ptr t

-- The call of the application that tells of a notice that failed.
abbrev failed_notice : AppCall
failed_notice = record {
  callback = cb_discover_ntf;
  status = tags_status_failed;
  id = tags_id_discover_activated;
  dump = none;
}

abbrev short_notice : DataPtr → Notice
short_notice ptr = record {
  callback = cb_rf_discover_ntf;
  status = status_syntax_error;
  id = uint16_id 3 5;
  data_ptr = ptr;
}

on_short :
    (ptr : DataPtr) (t : NfcTags) (n : NfcNci)
    → ptr ≡ null
    → t.registered ≡ true
    → on_notice (short_notice ptr) t n ≡ done (some failed_notice, noted ptr t)
unfolding on_notice on_rf_discover_ntf identify_tag rf_intf_at set_nci_response uint16_id
    translate_nci_status
on_short null t n e r = ground arith
on_short at_reset t n e r = absurd (ground arith)
on_short at_rf_intf t n e r = absurd (ground arith)
on_short at_deactivate t n e r = absurd (ground arith)
on_short (at_rx i) t n e r = absurd (ground arith)

dump_fails :
    (t : NfcTags) (n : NfcNci)
    → dump_receive failed_notice Dump.st_discovering t n ≡ done Dump.st_error
unfolding dump_receive dump_cb_discover_ntf
dump_fails t n = refl

detect_fails :
    (t : NfcTags) (n : NfcNci)
    → detect_receive failed_notice Detect.st_discovering t n ≡ done Detect.st_deactivate
unfolding detect_receive detect_cb_discover_ntf
detect_fails t n = refl

-- The tag API takes no deactivation while it looks for tags.
deactivate_refused :
    (t : NfcTags)
    → t.state ≡ discover_ntf
    → detect_handle_event Detect.st_deactivate t ≡ done (Detect.st_error, t)
unfolding detect_handle_event cmd_deactivate
deactivate_refused t s = ground (arith, s)

module _ (hw : NfcHw) where
  open hw use {World}

  -- The pass of a sketch, given what its callback does.
  pass_short :
      (sk : Sketch) (app : Application sk) (s : sk.State) (p : Packet) (t : NfcTags) (n : NfcNci)
      (w w' : World)
      → Stage discover_ntf tags_id_discover rfst_discovery t n
      → n.data_ptr ≡ null
      → Gives hw p w w'
      → p.byte0 ≡ 0x61
      → p.byte1 ≡ 5
      → length (payload p) < 11
      → ((t' : NfcTags) (n' : NfcNci) → sk.receive failed_notice app.discovering t' n' ≡ done s)
      → pass sk hw app.discovering t n w
        ≡ done (s, noted n.data_ptr t, record n { rx_buf = received p n.rx_buf }, w')
  unfolding pass layers turn tell nci_turn deliver answer
  pass_short sk app s p t n w w' g d given b0 b1 l heard =
      let m = record n { rx_buf = received p n.rx_buf } in
      let b = received-Stands p n.rx_buf given.valid in
      rw (
        app.awaits_tag t,
        discover_ntf_waits hw t n w g.tags g.tags_id,
        handle_event-Gives hw p n w w' g.nci_registered given,
        short_route m g.nci (b.byte0 ∙ b0) (b.byte1 ∙ b1) (omega (arith, b.size, l)),
        on_short n.data_ptr t m d g.idle.registered,
        heard (noted n.data_ptr t) m,
      )

  -- While a sketch and both layers look for tags, with no data noted by the NCI layer, and on a controller
  -- that sends a notification of a tag with fewer than 11 bytes of payload: the pass returns, and both
  -- layers go on to look for tags. The dump sketch is then in its state of an error. The sketch that detects
  -- tags is about to deactivate a tag, its error overwritten; the tag API does not take this command, so
  -- the handler of its next pass moves it to its error too.
  pub short_announcement :
      (p : Packet) (t : NfcTags) (n : NfcNci) (w w' : World)
      → Stage discover_ntf tags_id_discover rfst_discovery t n
      → n.data_ptr ≡ null
      → Gives hw p w w'
      → p.byte0 ≡ 0x61
      → p.byte1 ≡ 5
      → length (payload p) < 11
      → (t' : NfcTags) × (n' : NfcNci) × Stage discover_ntf tags_id_discover rfst_discovery t' n'
        × (pass dump_sketch hw Dump.st_discovering t n w ≡ done (Dump.st_error, t', n', w'))
        × (pass detect_sketch hw Detect.st_discovering t n w
            ≡ done (Detect.st_deactivate, t', n', w'))
        × (detect_handle_event Detect.st_deactivate t' ≡ done (Detect.st_error, t'))
  unfolding dump_application detect_application set_nci_response
  short_announcement p t n w w' g d given b0 b1 l = (
    noted n.data_ptr t,
    record n { rx_buf = received p n.rx_buf },
    record {
      tags = g.tags;
      tags_id = g.tags_id;
      nci = g.nci;
      intf = g.intf;
      idle = record {
        registered = g.idle.registered;
        tag_registered = g.idle.tag_registered;
        tag_idle = g.idle.tag_idle;
      };
      nci_registered = g.nci_registered;
    },
    pass_short dump_sketch dump_application Dump.st_error p t n w w' g d given b0 b1 l dump_fails,
    pass_short detect_sketch detect_application Detect.st_deactivate p t n w w' g d given b0 b1 l
        detect_fails,
    deactivate_refused (noted n.data_ptr t) g.tags,
  )
