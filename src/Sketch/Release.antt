-- ===== src/Sketch/Release.antt =====
-- examples: the passes of the loop in which a tag is let go.
use arduino_nfc.Common.{◌≡◌, ◌⊎◌, refl, ◌∙◌, [], ◌∷◌, length, some, none, true, arith}
use arduino_nfc.Common.Outcome.{done}
use arduino_nfc.Hw.{NfcHw}
use arduino_nfc.Nci.Types.{
  NfcNci, Notice, rfst_discovery, rfst_poll_active, at_deactivate, cb_rf_deactivate,
  cb_rf_deactivate_ntf,
}
use arduino_nfc.Nci.Header.{mt_of, pbf_of, gid_of, oid_of, uint16_id}
use arduino_nfc.Nci.Responses.{ntf_rf_deactivate}
use arduino_nfc.Nci.Events.{handle_packet, handle_rf_event, answer}
use arduino_nfc.Nci.Events.Receiving.{
  Packet, Gives, payload, received, received-Stands, handle_event-Gives,
}
use arduino_nfc.Tags.Types.{
  NfcTags, discover_ntf, discover_activated, dumping, deactivate_rsp, cb_deactivate,
  tags_id_deactivate, tags_id_discover,
}
use arduino_nfc.Tags.Stack.{set_nci_response}
use arduino_nfc.Tags.Callbacks.{on_notice, on_rf_deactivate_ntf}
use arduino_nfc.Tags.Handlers.{handle_event, handle_deactivate, sends, notify}
use arduino_nfc.Tags.Sending.{sending_deactivate, handle_event-SendsSilently}
use arduino_nfc.Tags.Progress.{call_of}
use arduino_nfc.Tags.System.{nci_turn, deliver}
use arduino_nfc.Sketch.{Sketch, tell, turn, layers, pass, passes}
use arduino_nfc.Sketch.Application.{Application, deactivating}
use arduino_nfc.Sketch.Repeats.{Looks}
use arduino_nfc.Sketch.Exchanges.{Idle, Stage, Passes, pass_answered, reply-Success, Exchange}

-- The notification of a deactivation.
pub record IsRelease (p : Packet) : Type 0 where
  pub byte0 : p.byte0 ≡ 0x61
  pub byte1 : p.byte1 ≡ 6
  pub size : length (payload p) ≡ 2

pub deactivated_route :
    (n : NfcNci)
    → n.rx_buf 0 ≡ 0x61
    → n.rx_buf 1 ≡ 6
    → handle_packet n ≡ answer cb_rf_deactivate_ntf 3 6 (ntf_rf_deactivate 2 n)
unfolding handle_packet handle_rf_event mt_of pbf_of gid_of oid_of
deactivated_route n b0 b1 = rw (b0, b1)

abbrev noted : NfcNci → NfcNci
noted n = record n {
  deactivate = record { type = n.rx_buf 3; reason = n.rx_buf 4 };
  data_ptr = at_deactivate;
}

ntf_rf_deactivate-noted :
    (n : NfcNci)
    → n.state ≡ rfst_discovery
    → n.rx_buf 2 ≡ 2
    → ntf_rf_deactivate 2 n ≡ done (0, noted n)
unfolding ntf_rf_deactivate
ntf_rf_deactivate-noted n s e = ground (arith, s, e)

abbrev freed : NfcTags → NfcTags
freed t = record (set_nci_response 0 (uint16_id 3 6) at_deactivate t) {
  id = tags_id_discover;
  state = discover_ntf;
}

abbrev release : Notice
release = record {
  callback = cb_rf_deactivate_ntf;
  status = 0;
  id = uint16_id 3 6;
  data_ptr = at_deactivate;
}

on_release :
    (t : NfcTags) (n : NfcNci)
    → t.registered ≡ true
    → on_notice release t n ≡ done (some (call_of cb_deactivate tags_id_deactivate), freed t)
unfolding on_notice on_rf_deactivate_ntf set_nci_response uint16_id
on_release t n r = ground arith

module _ (hw : NfcHw) where
  open hw use {World}

  -- The tag API waits for the notification.
  deactivate_rsp_waits :
      (t : NfcTags) (n : NfcNci) (w : World)
      → t.state ≡ deactivate_rsp
      → t.id ≡ tags_id_deactivate
      → handle_event hw t n w ≡ done (none, t, n, w)
  unfolding handle_event handle_deactivate sends notify
  deactivate_rsp_waits t n w s i = ground (arith, s, i)

  -- The controller takes the deactivation, responds, and announces that it is done.
  pub record Releases (w w' : World) : Type 0 where
    pub mid : World
    pub response : Exchange hw cb_rf_deactivate (0x21 ∷ 0x06 ∷ 1 ∷ 3 ∷ []) w mid
    pub notification : Packet
    pub gives : Gives hw notification mid w'
    pub is_release : IsRelease notification

  module _ (sk : Sketch) (app : Application sk) where
    pass_deactivate :
        (t : NfcTags) (n : NfcNci) (w w' : World)
        → (t.state ≡ discover_activated) ⊎ (t.state ≡ dumping)
        → Idle t
        → n.state ≡ rfst_poll_active
        → n.registered ≡ true
        → Exchange hw cb_rf_deactivate (0x21 ∷ 0x06 ∷ 1 ∷ 3 ∷ []) w w'
        → Passes hw sk app.deactivate_response deactivate_rsp tags_id_deactivate rfst_discovery
            app.deactivate t n w w'
    unfolding tell
    pass_deactivate t n w w' h o a k (p, r, ans) =
        let t1 = deactivating t in
        pass_answered hw sk cb_rf_deactivate (0x21 ∷ 0x06 ∷ 1 ∷ 3 ∷ []) p app.deactivate
          app.deactivate_response app.deactivate_response t t1 n w w' (app.deactivates t h)
          (handle_event-SendsSilently hw _ t1 n w (sending_deactivate refl refl) a ans.takes)
          (record {
            registered = o.registered;
            tag_registered = o.tag_registered;
            tag_idle = o.tag_idle;
          })
          refl k ans (λ tx. reply-Success hw cb_rf_deactivate p n tx ans.gives.valid r a)
          (λ t2 n2. refl)

    pass_freed :
        (p : Packet) (t : NfcTags) (n : NfcNci) (w w' : World)
        → Stage deactivate_rsp tags_id_deactivate rfst_discovery t n
        → Gives hw p w w'
        → IsRelease p
        → Passes hw sk app.discovering discover_ntf tags_id_discover rfst_discovery
            app.deactivate_response t n w w'
    unfolding pass layers turn tell nci_turn deliver answer set_nci_response
    pass_freed p t n w w' g given h =
        let m = record n { rx_buf = received p n.rx_buf } in
        let b = received-Stands p n.rx_buf given.valid in
        (
          freed t,
          noted m,
          record {
            tags = refl;
            tags_id = refl;
            nci = g.nci;
            intf = g.intf;
            idle = record {
              registered = g.idle.registered;
              tag_registered = g.idle.tag_registered;
              tag_idle = g.idle.tag_idle;
            };
            nci_registered = g.nci_registered;
          },
          rw (
            app.awaits_deactivate t,
            deactivate_rsp_waits t n w g.tags g.tags_id,
            handle_event-Gives hw p n w w' g.nci_registered given,
            deactivated_route m (b.byte0 ∙ h.byte0) (b.byte1 ∙ h.byte1),
            ntf_rf_deactivate-noted m g.nci (b.size ∙ h.size),
            on_release t (noted m) g.idle.registered,
            app.told_deactivate (freed t) (noted m),
          ),
        )

    -- A sketch that lets an active tag go looks for tags two passes later.
    pub let_go :
        (t : NfcTags) (n : NfcNci) (w w' : World)
        → (t.state ≡ discover_activated) ⊎ (t.state ≡ dumping)
        → Idle t
        → n.state ≡ rfst_poll_active
        → n.registered ≡ true
        → Releases w w'
        → Looks hw sk app 2 app.deactivate t n w w'
    unfolding passes
    let_go t n w w' h o a k c =
        let (t1, n1, g1, e1) = pass_deactivate t n w c.mid h o a k c.response in
        let (t2, n2, g2, e2) = pass_freed c.notification t1 n1 c.mid w' g1 c.gives c.is_release in
        (t2, n2, g2, rw (e1, e2))
