-- ===== src/Sketch/Exchanges.antt =====
-- examples: one pass of the loop in which the controller answers a command.
use arduino_nfc.Common.{ℕ, ◌≤◌, ◌≡◌, ◌∙◌, ap, true, List, length, arith}
use arduino_nfc.Common.Outcome.{done}
use arduino_nfc.Common.Buffer.{Buf}
use arduino_nfc.Hw.{NfcHw}
use arduino_nfc.Nci.Types.{
  NfcNci, NciState, state_none, rfst_reset, rfst_idle, rfst_poll_active, cb_rf_deactivate, Callback,
  cb_core_reset, cb_core_init, cb_rf_discover_map, cb_rf_discover,
}
use arduino_nfc.Nci.Events.Receiving.{Packet, IsPacket, Gives, payload, received, received-Stands}
use arduino_nfc.Nci.Events.Replies.{
  Success, reset_ok, init_ok, map_ok, discover_ok, deactivate_ok, state_after,
}
use arduino_nfc.Tags.Types.{NfcTags, TagsState, Type2, t2_none, no_tag}
use arduino_nfc.Tags.Handlers.{handle_event}
use arduino_nfc.Tags.Advance.{target}
use arduino_nfc.Tags.Sending.{SendsSilently}
use arduino_nfc.Tags.Progress.{told_of, nci_turn-Turns}
use arduino_nfc.Sketch.{Sketch, tell, turn, layers, pass}

-- The application is registered, and the interface of type 2 is idle.
pub record Idle (t : NfcTags) : Type 0 where
  pub registered : t.registered ≡ true
  pub tag_registered : t.tag2.registered ≡ true
  pub tag_idle : t.tag2.state ≡ t2_none

-- Where the objects of the two layers are between two passes, while no tag is found.
pub record Stage (ts : TagsState) (id : ℕ) (ns : NciState) (t : NfcTags) (n : NfcNci) : Type 0 where
  pub tags : t.state ≡ ts
  pub tags_id : t.id ≡ id
  pub nci : n.state ≡ ns
  pub intf : t.intf ≡ no_tag
  pub idle : Idle t
  pub nci_registered : n.registered ≡ true

Idle-kept : (t t' : NfcTags) → t'.registered ≡ t.registered → t'.tag2 ≡ t.tag2 → Idle t → Idle t'
Idle-kept t t' r e o = record {
  registered = r ∙ o.registered;
  tag_registered = ap (λ (x : Type2). x.registered) e ∙ o.tag_registered;
  tag_idle = ap (λ (x : Type2). x.state) e ∙ o.tag_idle;
}

module _ (hw : NfcHw) where
  open hw use {World}

  -- The controller takes a packet, and its next packet is a reply.
  pub record Answers (bytes : List ℕ) (p : Packet) (w w' : World) : Type 0 where
    pub takes : (hw.write bytes w).0 ≡ length bytes
    pub gives : Gives hw p (hw.write bytes w).1 w'

  module _ (sk : Sketch) where
    -- The objects after a pass.
    abbrev pub Passes :
        sk.State → TagsState → ℕ → NciState → sk.State → NfcTags → NfcNci → World → World → Type 0
    Passes a ts id ns s t n w w' =
        (t' : NfcTags) × (n' : NfcNci) × Stage ts id ns t' n'
        × (pass sk hw s t n w ≡ done (a, t', n', w'))

    -- A pass in which the sketch gives `t1`, the tag API sends a packet, and the reply is a success.
    pub pass_answered :
        (cb : Callback) (bytes : List ℕ) (p : Packet) (s s1 s2 : sk.State) (t t1 : NfcTags)
        (n : NfcNci) (w w' : World)
        → sk.handle_event s t ≡ done (s1, t1)
        → SendsSilently hw bytes t1 n w (handle_event hw t1 n w)
        → Idle t1
        → t1.intf ≡ no_tag
        → n.registered ≡ true
        → Answers bytes p w w'
        → ((tx : Buf) → Success (record n { tx_buf = tx; rx_buf = received p n.rx_buf }) cb)
        → ((t2 : NfcTags) (n2 : NfcNci) → tell sk (told_of cb) s1 t2 n2 ≡ done s2)
        → Passes s2 (target cb t1.state) t1.id (state_after cb n.state) s t n w w'
    unfolding pass layers turn tell
    pass_answered cb bytes p s s1 s2 t t1 n w w' e (tx, f) o i k ans ok heard =
        let n1 = record n { tx_buf = tx } in
        let (t2, n2, a, st, reg, g) =
          nci_turn-Turns hw cb p t1 n1 (hw.write bytes w).1 w' o.registered k ans.gives (ok tx) in
        (
          t2,
          n2,
          record {
            tags = a.0;
            tags_id = a.1;
            nci = st;
            intf = a.4 ∙ i;
            idle = Idle-kept t1 t2 a.2 a.3 o;
            nci_registered = reg ∙ k;
          },
          rw (e, f, g) (rw (heard t2 n2)),
        )

  -- The successful response of each command.
  abbrev pub IsReply : Callback → Packet → Type 0
  IsReply cb_core_reset p =
      (p.byte0 ≡ 0x40) × (p.byte1 ≡ 0) × (length (payload p) ≡ 3) × (p.first ≡ 0)
  IsReply cb_core_init p =
      (p.byte0 ≡ 0x40) × (p.byte1 ≡ 1) × (17 ≤ length (payload p)) × (p.first ≡ 0)
  IsReply cb_rf_discover_map p =
      (p.byte0 ≡ 0x41) × (p.byte1 ≡ 0) × (length (payload p) ≡ 1) × (p.first ≡ 0)
  IsReply cb_rf_discover p =
      (p.byte0 ≡ 0x41) × (p.byte1 ≡ 3) × (length (payload p) ≡ 1) × (p.first ≡ 0)
  IsReply cb_rf_deactivate p =
      (p.byte0 ≡ 0x41) × (p.byte1 ≡ 6) × (length (payload p) ≡ 1) × (p.first ≡ 0)
  IsReply _ p = ⊥

  abbrev pub needs : Callback → NciState
  needs cb_core_reset = state_none
  needs cb_core_init = rfst_reset
  needs cb_rf_deactivate = rfst_poll_active
  needs _ = rfst_idle

  pub reply-Success :
      (cb : Callback) (p : Packet) (n : NfcNci) (tx : Buf)
      → IsPacket p
      → IsReply cb p
      → n.state ≡ needs cb
      → Success (record n { tx_buf = tx; rx_buf = received p n.rx_buf }) cb
  reply-Success cb_core_reset p n tx v r s =
      let b = received-Stands p n.rx_buf v in
      reset_ok s (b.byte0 ∙ r.0) (b.byte1 ∙ r.1) (b.size ∙ r.2) (b.first ∙ r.3)
  reply-Success cb_core_init p n tx v r s =
      let b = received-Stands p n.rx_buf v in
      init_ok s (b.byte0 ∙ r.0) (b.byte1 ∙ r.1) (omega (arith, b.size, r.2)) (b.first ∙ r.3)
  reply-Success cb_rf_discover_map p n tx v r s =
      let b = received-Stands p n.rx_buf v in
      map_ok s (b.byte0 ∙ r.0) (b.byte1 ∙ r.1) (b.size ∙ r.2) (b.first ∙ r.3)
  reply-Success cb_rf_discover p n tx v r s =
      let b = received-Stands p n.rx_buf v in
      discover_ok s (b.byte0 ∙ r.0) (b.byte1 ∙ r.1) (b.size ∙ r.2) (b.first ∙ r.3)
  reply-Success cb_rf_deactivate p n tx v r s =
      let b = received-Stands p n.rx_buf v in
      deactivate_ok s (b.byte0 ∙ r.0) (b.byte1 ∙ r.1) (b.size ∙ r.2) (b.first ∙ r.3)
  reply-Success _ p n tx v r s = absurd r

  -- The four exchanges.
  abbrev pub Exchange : Callback → List ℕ → World → World → Type 0
  Exchange cb bytes w w' = (p : Packet) × IsReply cb p × Answers bytes p w w'
