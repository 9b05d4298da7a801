-- ===== src/Sketch/Detection.antt =====
-- examples: the pass of the loop in which a tag is found.
use arduino_nfc.Common.{
  true, Option, ◌≤◌, ◌≡◌, sym, subst, ◌∙◌, [], ◌∷◌, length, none, some, IsBytes, arith,
}
use arduino_nfc.Common.Outcome.{done}
use arduino_nfc.Common.Buffer.{Buf}
use arduino_nfc.Common.Buffer.Bounds.{splice, slice-splice}
use arduino_nfc.Hw.{NfcHw}
use arduino_nfc.Nci.Types.{DataPtr, NfcNci, rfst_discovery, rfst_poll_active, at_rf_intf}
use arduino_nfc.Nci.Events.Receiving.{
  Packet, IsPacket, Gives, payload, received, received-Stands, handle_event-Gives,
}
use arduino_nfc.Nci.Events.Notification.{Announced, Describes, encode, StandAt, StandAt-slice}
use arduino_nfc.Tags.Types.{
  TagIntf, no_tag, to_mifare, cb_discover_ntf, NfcTags, to_tag2, discover_ntf, discover_activated,
  tags_id_discover, tags_id_discover_activated,
}
use arduino_nfc.Tags.Handlers.{handle_event, handle_discover, sends, notify}
use arduino_nfc.Tags.System.{nci_turn, deliver}
use arduino_nfc.Tags.Chosen.{chosen, pointed, pointed_mifare}
use arduino_nfc.Tags.Found.{Received, interface_for, announced_tag-Found}
use arduino_nfc.Sketch.{Sketch, tell, turn, layers, pass}
use arduino_nfc.Tags.Progress.{call_of}
use arduino_nfc.Sketch.Application.{Application}
use arduino_nfc.Sketch.Exchanges.{Idle, Stage}

-- The packet is the notification of the tag.
pub record Announces (a : Announced) (p : Packet) : Type 0 where
  pub byte0 : p.byte0 ≡ 97
  pub byte1 : p.byte1 ≡ 5
  pub payload : payload p ≡ encode a
  pub bytes : IsBytes (encode a)
  pub nfcid_bytes : IsBytes a.nfcid
  pub fits : length a.nfcid ≤ 10

pub received-StandAt :
    (p : Packet) (b : Buf) → IsBytes (payload p) → StandAt (received p b) 3 (payload p)
received-StandAt p b h =
    StandAt-slice (received p b) 3 (payload p)
      (slice-splice (splice b 0 (p.byte0 ∷ p.byte1 ∷ length (payload p) ∷ [])) 3 (payload p) h)

Announces-Received :
    (a : Announced) (p : Packet) (n : NfcNci)
    → IsPacket p
    → Announces a p
    → Received a (record n { rx_buf = received p n.rx_buf })
Announces-Received a p n v h =
    let b = received-Stands p n.rx_buf v in
    let stands = received-StandAt p n.rx_buf (subst IsBytes (sym h.payload) h.bytes) in
    record {
      hdr0 = b.byte0 ∙ h.byte0;
      hdr1 = b.byte1 ∙ h.byte1;
      len = subst (λ xs. received p n.rx_buf 2 ≡ length xs) h.payload b.size;
      payload = subst (λ xs. StandAt (received p n.rx_buf) 3 xs) h.payload stands;
      fits = h.fits;
      bytes = h.nfcid_bytes;
    }

-- Both layers with a tag, which is driven by the interface for it.
pub record Active (a : Announced) (t : NfcTags) (n : NfcNci) : Type 0 where
  pub tags : t.state ≡ discover_activated
  pub tags_id : t.id ≡ tags_id_discover
  pub nci : n.state ≡ rfst_poll_active
  pub describes : Describes a n.rf_intf
  pub intf : t.intf ≡ chosen (interface_for a) no_tag
  pub idle : Idle t
  pub nci_registered : n.registered ≡ true

-- The tag's interface points to the object of the NCI layer.
abbrev pub PointsTo : Option TagIntf → NfcTags → Type 0
PointsTo none t = t.intf ≡ no_tag
PointsTo (some no_tag) t = Unit
PointsTo (some to_tag2) t = (t.intf ≡ to_tag2) × (t.tag2.rf ≡ at_rf_intf)
PointsTo (some to_mifare) t = (t.intf ≡ to_mifare) × (t.mifare.rf ≡ at_rf_intf)

points_to :
    (o : Option TagIntf) (t : NfcTags) (p q : DataPtr)
    → t.intf ≡ chosen o no_tag
    → t.tag2.rf ≡ pointed o p
    → t.mifare.rf ≡ pointed_mifare o q
    → PointsTo o t
points_to none t p q i a b = i
points_to (some no_tag) t p q i a b = tt
points_to (some to_tag2) t p q i a b = (i, a)
points_to (some to_mifare) t p q i a b = (i, b)

module _ (hw : NfcHw) where
  open hw use {World}

  -- The tag API waits.
  pub discover_ntf_waits :
      (t : NfcTags) (n : NfcNci) (w : World)
      → t.state ≡ discover_ntf
      → t.id ≡ tags_id_discover
      → handle_event hw t n w ≡ done (none, t, n, w)
  unfolding handle_event handle_discover sends notify
  discover_ntf_waits t n w s i = ground (arith, s, i)

  module _ (sk : Sketch) (app : Application sk) where
    -- While the sketch and both layers look for tags, the pass in which the controller announces one returns,
    -- with the state that the sketch's callback gives.
    pub pass_found :
        (a : Announced) (p : Packet) (t : NfcTags) (n : NfcNci) (w w' : World) (s : sk.State)
        → Stage discover_ntf tags_id_discover rfst_discovery t n
        → Gives hw p w w'
        → Announces a p
        → ((t' : NfcTags) (n' : NfcNci)
            → PointsTo (interface_for a) t'
            → sk.receive (call_of cb_discover_ntf tags_id_discover_activated) app.discovering t' n'
              ≡ done s)
        → (t' : NfcTags) × (n' : NfcNci) × Active a t' n'
          × (pass sk hw app.discovering t n w ≡ done (s, t', n', w'))
    unfolding pass layers turn tell nci_turn deliver
    pass_found a p t n w w' s g given h heard =
        let m = record n { rx_buf = received p n.rx_buf } in
        let (c, n', t', o, handled, noticed, f) =
          announced_tag-Found a m t g.nci (Announces-Received a p n given.valid h)
            g.idle.registered in
        let intf : t'.intf ≡ chosen (interface_for a) no_tag =
          subst (λ i. t'.intf ≡ chosen (interface_for a) i) g.intf f.intf in
        (
          t',
          n',
          record {
            tags = f.state;
            tags_id = f.id ∙ g.tags_id;
            nci = f.nci_state;
            describes = f.describes;
            intf = intf;
            idle = record {
              registered = f.registered ∙ g.idle.registered;
              tag_registered = f.tag2_registered ∙ g.idle.tag_registered;
              tag_idle = f.tag2_state ∙ g.idle.tag_idle;
            };
            nci_registered = f.nci_registered ∙ g.nci_registered;
          },
          rw
              (
                app.awaits_tag t,
                discover_ntf_waits t n w g.tags g.tags_id,
                handle_event-Gives hw p n w w' g.nci_registered given,
                handled,
                noticed,
                f.told,
              )
              (rw (
                heard t' n'
                  (points_to (interface_for a) t' t.tag2.rf t.mifare.rf intf f.tag2 f.mifare))),
        )
