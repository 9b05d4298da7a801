-- ===== src/Sketch/Interrupted.antt =====
-- examples/TagDump/TagDump.ino: the loop while a dump waits for blocks that do not come.
use arduino_nfc.Common.{ℕ, suc, ◌+◌, ◌≡◌, ◌∙◌, true, none, some, arith}
use arduino_nfc.Common.Outcome.{done}
use arduino_nfc.Hw.{NfcHw}
use arduino_nfc.Nci.Types.{NfcNci, DataPtr, rfst_poll_active, cb_rf_deactivate_ntf}
use arduino_nfc.Nci.Header.{uint16_id}
use arduino_nfc.Nci.Responses.{ntf_rf_deactivate}
use arduino_nfc.Nci.Events.{answer}
use arduino_nfc.Nci.Events.Receiving.{Packet, Gives, received, received-Stands, handle_event-Gives}
use arduino_nfc.Tags.Types.{NfcTags, tags_id_deactivate, cb_deactivate, translate_nci_status}
use arduino_nfc.Tags.Stack.{set_nci_response}
use arduino_nfc.Tags.Callbacks.{on_notice, on_rf_deactivate_ntf}
use arduino_nfc.Tags.System.{nci_turn, deliver}
use arduino_nfc.Sketch.{tell, turn, layers, pass, passes}
use arduino_nfc.Sketch.Repeats.{passes_add}
use arduino_nfc.Sketch.Waiting.{
  AwaitsBlocks, awaiting, failed, dump_handle_event-Idles, CoreNotices, handle_event-AwaitsBlocks,
  passes_idle,
}
use arduino_nfc.Sketch.Release.{deactivated_route}
use arduino_nfc.Sketch.Dump.{
  dump_sketch, dump_receive, dump_cb_deactivate, st_dump_response, st_error,
}

rejected_release : (n : NfcNci) → n.state ≡ rfst_poll_active → ntf_rf_deactivate 2 n ≡ done (1, n)
unfolding ntf_rf_deactivate
rejected_release n s = ground (arith, s)

abbrev refused : DataPtr → NfcTags → NfcTags
refused ptr t = set_nci_response 1 (uint16_id 3 6) ptr t

on_refused :
    (ptr : DataPtr) (t : NfcTags) (n : NfcNci)
    → t.registered ≡ true
    → on_notice
        (record { callback = cb_rf_deactivate_ntf; status = 1; id = uint16_id 3 6; data_ptr = ptr })
        t
        n
      ≡ done (
        some
            (record { callback = cb_deactivate; status = 1; id = tags_id_deactivate; dump = none }),
        refused ptr t,
      )
unfolding on_notice on_rf_deactivate_ntf set_nci_response uint16_id translate_nci_status
on_refused ptr t n r = ground arith

module _ (hw : NfcHw) where
  open hw use {World}

  -- The controller's next packet is the notification of a deactivation.
  abbrev pub DeactivateNotice : World → World → Type 0
  DeactivateNotice w w' = (p : Packet) × Gives hw p w w' × (p.byte0 ≡ 0x61) × (p.byte1 ≡ 6)

  pass-refused :
      (t : NfcTags) (n : NfcNci) (w w' : World)
      → AwaitsBlocks t n
      → DeactivateNotice w w'
      → (n' : NfcNci) × AwaitsBlocks (refused n.data_ptr t) n'
        × (pass dump_sketch hw st_dump_response t n w
            ≡ done (st_error, refused n.data_ptr t, n', w'))
  unfolding pass layers turn tell nci_turn deliver answer set_nci_response dump_receive
      dump_cb_deactivate
  pass-refused t n w w' g (p, given, b0, b1) =
      let m = record n { rx_buf = received p n.rx_buf } in
      let b = received-Stands p n.rx_buf given.valid in
      (
        m,
        record {
          tags = g.tags;
          tags_id = g.tags_id;
          intf = g.intf;
          tag = g.tag;
          registered = g.registered;
          nci = g.nci;
          nci_registered = g.nci_registered;
        },
        rw (
          dump_handle_event-Idles st_dump_response t awaiting,
          handle_event-AwaitsBlocks hw t n w g,
          handle_event-Gives hw p n w w' g.nci_registered given,
          deactivated_route m (b.byte0 ∙ b0) (b.byte1 ∙ b1),
          rejected_release m g.nci,
          on_refused n.data_ptr t m g.registered,
        ),
      )

  -- The bug: nothing ends a dump whose blocks do not come. While the tag's interface waits for blocks, any
  -- number of notifications of the core group, then the notification of a deactivation, and any number of
  -- the first again: each takes one pass of the loop of the dump sketch, which returns. The
  -- deactivation moves the sketch to its error, where it still is at the end, and the tag API and the tag's
  -- interface then still dump.
  pub dump_interrupted :
      (k m : ℕ) (t : NfcTags) (n : NfcNci) (w v v' w' : World)
      → AwaitsBlocks t n
      → CoreNotices hw k w v
      → DeactivateNotice v v'
      → CoreNotices hw m v' w'
      → (t' : NfcTags) × (n' : NfcNci) × AwaitsBlocks t' n'
        × (passes dump_sketch hw (k + suc m) st_dump_response t n w ≡ done (st_error, t', n', w'))
  unfolding passes
  dump_interrupted k m t n w v v' w' g xs x ys =
      let (n1, g1, e1) = passes_idle hw k st_dump_response t n w v awaiting g xs in
      let (n2, g2, e2) = pass-refused t n1 v v' g1 x in
      let (n3, g3, e3) = passes_idle hw m st_error (refused n1.data_ptr t) n2 v' w' failed g2 ys in
      (
        refused n1.data_ptr t,
        n3,
        g3,
        passes_add hw dump_sketch k (suc m) st_dump_response t n w ∙ rw (e1, e2) e3,
      )
