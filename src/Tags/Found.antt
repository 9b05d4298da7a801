-- ===== src/Tags/Found.antt =====
-- src/nci/NfcNci.cpp and src/tags/NfcTags.cpp: from the notification of a tag to the interface that drives it.
use arduino_nfc.Common.{
  ℕ, ◌≤◌, ◌≡◌, refl, ◌∙◌, ◌==◌, if◌then◌else◌, not, ◌&&◌, Bool, true, Option, none, some, List, [],
  ◌∷◌, length, IsBytes, bit_and, Bool-cases, inl, inr, arith,
}
use arduino_nfc.Common.Outcome.{done}
use arduino_nfc.Common.Buffer.{Buf, slice}
use arduino_nfc.Nci.Types.{
  NfcNci, RfIntf, ParamsPa, Notice, rfst_discovery, rfst_poll_active, at_rf_intf,
  cb_rf_discover_ntf,
}
use arduino_nfc.Nci.Header.{mt_of, pbf_of, gid_of, oid_of, uint16_id}
use arduino_nfc.Nci.Responses.{ntf_rf_intf_activated}
use arduino_nfc.Nci.Events.{handle_packet, handle_rf_event, answer}
use arduino_nfc.Nci.Events.Notification.{Announced, Describes, StandAt, encode, sel_res_of}
use arduino_nfc.Nci.Events.Activation.{ntf_rf_intf_activated-Describes}
use arduino_nfc.Tags.Types.{
  NfcTags, TagIntf, to_tag2, to_mifare, AppCall, cb_discover_ntf, discover_activated,
  tags_id_discover_activated,
}
use arduino_nfc.Tags.Stack.{classify, identify_tag, rf_intf_at, choose, set_nci_response}
use arduino_nfc.Tags.Callbacks.{on_notice, on_rf_discover_ntf}
use arduino_nfc.Tags.Chosen.{
  choose-registered, choose-id, choose-state, chosen, choose-intf, pointed, choose-tag2,
  choose-tag2_state, pointed_mifare, choose-mifare, choose-tag2_registered,
}

-- The product of the maker with the identifier 4.
abbrev of_nxp : List ℕ → Bool
of_nxp [] = 0 == 1
of_nxp (x ∷ xs) = x == 4

-- A SEL_RES with the bits 3 and 4.
abbrev of_classic : Option ℕ → Bool
of_classic none = 0 == 1
of_classic (some r) = not (bit_and r 8 == 0) && not (bit_and r 16 == 0)

-- The interface for a tag in mode A: type 2 for seven bytes that NXP gives, and else Mifare classic for the
-- SEL_RES of one; none for any other tag.
abbrev pub interface_for : Announced → Option TagIntf
interface_for a =
    if length a.nfcid == 7
    then (if of_nxp a.nfcid then some to_tag2 else none)
    else if of_classic a.sel_res
    then some to_mifare
    else none

by_nfcid :
    (b : Buf) (xs : List ℕ) → length xs ≡ 7 → slice b 0 (length xs) ≡ xs → (b 0 == 4) ≡ of_nxp xs
by_nfcid b [] e h = absurd (omega arith)
by_nfcid b (x ∷ xs) e h = ground arith

by_sel_res :
    (pa : ParamsPa)
    → (if pa.sel_res_len == 1
        then (if not (bit_and pa.sel_res 8 == 0) && not (bit_and pa.sel_res 16 == 0)
            then some to_mifare
            else none)
        else none)
      ≡ (if of_classic (sel_res_of pa) then some to_mifare else none)
by_sel_res pa = elim (Bool-cases (pa.sel_res_len == 1)) [ inl e ↦ rw e | inr e ↦ rw e ]

-- The interface picked for a tag is that of the tag announced.
pub classify-interface_for :
    (a : Announced) (rf : RfIntf) → Describes a rf → classify rf ≡ interface_for a
unfolding classify
classify-interface_for a rf d = elim (Bool-cases (length a.nfcid == 7)) [
  | inl e ↦ ground (
    arith,
    d.specific_type,
    d.nfcid_len,
    e,
    by_nfcid rf.poll_a.nfcid a.nfcid (ground arith) d.nfcid,
  )
  | inr e ↦ ground (arith, d.specific_type, d.nfcid_len, e, d.sel_res, by_sel_res rf.poll_a)
]

-- The packet of the notification stands in the receive buffer.
pub record Received (a : Announced) (n : NfcNci) : Type 0 where
  pub hdr0 : n.rx_buf 0 ≡ 97
  pub hdr1 : n.rx_buf 1 ≡ 5
  pub len : n.rx_buf 2 ≡ length (encode a)
  pub payload : StandAt n.rx_buf 3 (encode a)
  pub fits : length a.nfcid ≤ 10
  pub bytes : IsBytes a.nfcid

activated_route :
    (n : NfcNci)
    → n.rx_buf 0 ≡ 97
    → n.rx_buf 1 ≡ 5
    → handle_packet n ≡ answer cb_rf_discover_ntf 3 5 (ntf_rf_intf_activated 2 n)
unfolding handle_packet handle_rf_event mt_of pbf_of gid_of oid_of
activated_route n b0 b1 = rw (b0, b1)

abbrev activated : NfcTags → NfcTags
activated t = record (set_nci_response 0 (uint16_id 3 5) at_rf_intf t) {
  state = discover_activated;
}

-- What the tag API does with the notice of an activation.
on_activation :
    (n : NfcNci) (t : NfcTags)
    → t.registered ≡ true
    → on_rf_discover_ntf 0 (uint16_id 3 5) at_rf_intf t n
      ≡ done (
        some (record {
          callback = cb_discover_ntf;
          status = 0;
          id = tags_id_discover_activated;
          dump = none;
        }),
        choose at_rf_intf (classify n.rf_intf) (activated t),
      )
unfolding on_rf_discover_ntf identify_tag rf_intf_at set_nci_response uint16_id
on_activation n t r =
    let e : (choose at_rf_intf (classify n.rf_intf) (activated t)).registered ≡ true =
      choose-registered (classify n.rf_intf) (activated t) ∙ r in
    rw e

-- The application learns of the tag, which is active and driven by the interface for it.
pub record Found (a : Announced) (n n' : NfcNci) (t t' : NfcTags) (o : Option AppCall)
    : Type 0 where
  pub told :
      o
      ≡ some (record {
        callback = cb_discover_ntf;
        status = 0;
        id = tags_id_discover_activated;
        dump = none;
      })
  pub describes : Describes a n'.rf_intf
  pub nci_state : n'.state ≡ rfst_poll_active
  pub state : t'.state ≡ discover_activated
  pub intf : t'.intf ≡ chosen (interface_for a) t.intf
  pub id : t'.id ≡ t.id
  pub registered : t'.registered ≡ t.registered
  pub nci_registered : n'.registered ≡ n.registered
  pub tag2_state : t'.tag2.state ≡ t.tag2.state
  pub tag2_registered : t'.tag2.registered ≡ t.tag2.registered
  pub tag2 : t'.tag2.rf ≡ pointed (interface_for a) t.tag2.rf
  pub mifare : t'.mifare.rf ≡ pointed_mifare (interface_for a) t.mifare.rf

-- While the RF state is DISCOVERY and an application is registered, the notification of a tag in mode A
-- with an identifier of at most ten bytes is handled: the NCI layer keeps what it announces and is in
-- the state POLL_ACTIVE, and its call leaves the tag API in the state DISCOVER_ACTIVATED, with the
-- interface for that tag, if there is one, and with the call of `cbDiscoverNtf` with the status OK.
pub announced_tag-Found :
    (a : Announced) (n : NfcNci) (t : NfcTags)
    → n.state ≡ rfst_discovery
    → Received a n
    → t.registered ≡ true
    → (c : Notice) × (n' : NfcNci) × (t' : NfcTags) × (o : Option AppCall) × (handle_packet n
        ≡ done (some c, n'))
      × (on_notice c t n' ≡ done (o, t'))
      × Found a n n' t t' o
unfolding answer on_notice on_rf_discover_ntf set_nci_response
announced_tag-Found a n t e r k =
    let (rf, d, h) = ntf_rf_intf_activated-Describes a n e r.fits r.bytes r.len r.payload in
    let n' : NfcNci = record n { rf_intf = rf; data_ptr = at_rf_intf; state = rfst_poll_active } in
    let t' : NfcTags = choose at_rf_intf (classify rf) (activated t) in
    (
      record {
        callback = cb_rf_discover_ntf;
        status = 0;
        id = uint16_id 3 5;
        data_ptr = at_rf_intf;
      },
      n',
      t',
      some (record {
        callback = cb_discover_ntf;
        status = 0;
        id = tags_id_discover_activated;
        dump = none;
      }),
      activated_route n r.hdr0 r.hdr1 ∙ rw h,
      on_activation n' t k,
      record {
        told = refl;
        describes = d;
        nci_state = refl;
        state = choose-state (classify rf) (activated t);
        intf = choose-intf (classify rf) (activated t) ∙ rw (classify-interface_for a rf d);
        id = choose-id (classify rf) (activated t);
        registered = choose-registered (classify rf) (activated t);
        nci_registered = refl;
        tag2_state = choose-tag2_state (classify rf) (activated t);
        tag2_registered = choose-tag2_registered (classify rf) (activated t);
        tag2 = choose-tag2 (classify rf) (activated t) ∙ rw (classify-interface_for a rf d);
        mifare = choose-mifare (classify rf) (activated t) ∙ rw (classify-interface_for a rf d);
      },
    )
