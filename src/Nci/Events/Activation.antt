-- ===== src/Nci/Events/Activation.antt =====
-- src/nci/NfcNci.cpp: `ntfRfIntfActivated` against the format of the notification, for a tag in mode A.
use arduino_nfc.Common.{
  ℕ, ◌+◌, ◌≤◌, ◌<◌, ◌≡◌, refl, Option, none, some, List, ◌∷◌, ◌++◌, length, length-append, IsBytes,
  arith,
}
use arduino_nfc.Common.Outcome.{done}
use arduino_nfc.Common.Buffer.{Buf, slice}
use arduino_nfc.Common.Buffer.Bounds.{splice, slice-splice, store_all-splice}
use arduino_nfc.Nci.Types.{
  status_ok, NfcNci, RfIntf, ParamsPa, rfst_discovery, rfst_poll_active, at_rf_intf,
}
use arduino_nfc.Nci.Responses.{
  set_nfcid, set_rf_tech_spec_params, set_rf_intf_head, set_rf_intf_tail, set_rf_intf,
  ntf_rf_intf_activated,
}
use arduino_nfc.Nci.Events.Notification.{
  Announced, sel_bytes, tech_bytes, closing, encode, StandAt, StandAt-append, slice_standing,
  sel_res_of, Describes,
}

abbrev kept : List ℕ → ℕ → ℕ → ParamsPa → ParamsPa
kept xs l r pa = record pa {
  nfcid_len = length xs;
  nfcid = splice pa.nfcid 0 xs;
  sel_res_len = l;
  sel_res = r;
}

set_nfcid_without :
    (b : Buf) (pa : ParamsPa) (xs : List ℕ)
    → length xs ≤ 10
    → b 12 ≡ length xs
    → slice b 13 (length xs) ≡ xs
    → b (13 + length xs) ≡ 0
    → set_nfcid b 12 pa ≡ done (kept xs 0 pa.sel_res pa)
unfolding set_nfcid
set_nfcid_without b pa xs h e f g = ground (arith, store_all-splice 10 pa.nfcid 0 xs (omega arith))

set_nfcid_with :
    (b : Buf) (pa : ParamsPa) (xs : List ℕ) (r : ℕ)
    → length xs ≤ 10
    → b 12 ≡ length xs
    → slice b 13 (length xs) ≡ xs
    → b (13 + length xs) ≡ 1
    → b (13 + length xs + 1) ≡ r
    → set_nfcid b 12 pa ≡ done (kept xs 1 r pa)
unfolding set_nfcid
set_nfcid_with b pa xs r h e f g k = ground (arith, store_all-splice 10 pa.nfcid 0 xs (omega arith))

abbrev keep : List ℕ → Option ℕ → ParamsPa → ParamsPa
keep xs none pa = kept xs 0 pa.sel_res pa
keep xs (some r) pa = kept xs 1 r pa

set_nfcid-keep :
    (b : Buf) (pa : ParamsPa) (xs : List ℕ) (o : Option ℕ)
    → length xs ≤ 10
    → StandAt b 12 (length xs ∷ (xs ++ sel_bytes o))
    → set_nfcid b 12 pa ≡ done (keep xs o pa)
set_nfcid-keep b pa xs none h s =
    let (l, r) = StandAt-append b 13 (13 + length xs) xs (sel_bytes none) refl s.1 in
    set_nfcid_without b pa xs h s.0 (slice_standing b 13 xs l) r.0
set_nfcid-keep b pa xs (some x) h s =
    let (l, r) = StandAt-append b 13 (13 + length xs) xs (sel_bytes (some x)) refl s.1 in
    set_nfcid_with b pa xs x h s.0 (slice_standing b 13 xs l) r.0 r.1.0

abbrev with_tech : Announced → RfIntf → RfIntf
with_tech a rf = record rf {
  specific_type = 0;
  poll_a =
      keep a.nfcid a.sel_res
        (record rf.poll_a { sens_res0 = a.sens_res0; sens_res1 = a.sens_res1 });
}

set_rf_tech_spec_params-with_tech :
    (a : Announced) (b : Buf) (rf : RfIntf)
    → rf.activation_mode ≡ 0
    → length a.nfcid ≤ 10
    → StandAt b 10 (tech_bytes a)
    → set_rf_tech_spec_params b 10 rf ≡ done (with_tech a rf)
unfolding set_rf_tech_spec_params
set_rf_tech_spec_params-with_tech a b rf m h s =
    let pa : ParamsPa = record rf.poll_a { sens_res0 = a.sens_res0; sens_res1 = a.sens_res1 } in
    ground (arith, m, s.0, s.1.0, set_nfcid-keep b pa a.nfcid a.sel_res h s.1.1)

abbrev with_head : Announced → RfIntf → RfIntf
with_head a rf = record rf {
  id = a.id;
  interface = a.interface;
  protocol = a.protocol;
  activation_mode = 0;
  max_payload_size = a.max_payload_size;
  credits = a.credits;
}

set_rf_intf_head-with_head :
    (a : Announced) (n : NfcNci)
    → StandAt n.rx_buf 3 (encode a)
    → set_rf_intf_head 3 n ≡ done (with_head a n.rf_intf)
unfolding set_rf_intf_head encode
set_rf_intf_head-with_head a n s =
    ground (arith, s.0, s.1.0, s.1.1.0, s.1.1.1.0, s.1.1.1.1.0, s.1.1.1.1.1.0)

abbrev described : Announced → RfIntf → RfIntf
described a rf = record (with_tech a (with_head a rf)) {
  exchange_mode = a.exchange_mode;
  tx_bitrate = a.tx_bitrate;
  rx_bitrate = a.rx_bitrate;
}

set_rf_intf_tail-described :
    (a : Announced) (n : NfcNci) (p : ℕ) (rf : RfIntf)
    → p + 3 < 258
    → StandAt n.rx_buf p (closing a)
    → set_rf_intf_tail p n rf
      ≡ done (record rf {
        exchange_mode = a.exchange_mode;
        tx_bitrate = a.tx_bitrate;
        rx_bitrate = a.rx_bitrate;
      })
unfolding set_rf_intf_tail
set_rf_intf_tail-described a n p rf h s = ground (arith, s.0, s.1.0, s.1.1.0, s.1.1.1.0)

sel_bytes_fit : (o : Option ℕ) → length (sel_bytes o) ≤ 2
sel_bytes_fit none = omega arith
sel_bytes_fit (some r) = omega arith

tech_bytes_fit : (a : Announced) → length a.nfcid ≤ 10 → length (tech_bytes a) ≤ 15
tech_bytes_fit a h =
    omega (arith, length-append a.nfcid (sel_bytes a.sel_res), sel_bytes_fit a.sel_res)

set_rf_intf-described :
    (a : Announced) (n : NfcNci)
    → length a.nfcid ≤ 10
    → StandAt n.rx_buf 3 (encode a)
    → set_rf_intf 3 n ≡ done (described a n.rf_intf)
unfolding set_rf_intf encode
set_rf_intf-described a n h s =
    let behind = s.1.1.1.1.1.1 in
    let (l, r) =
      StandAt-append n.rx_buf 10 (10 + length (tech_bytes a)) (tech_bytes a) (closing a) refl
        behind.1 in
    ground (
      arith,
      behind.0,
      set_rf_intf_head-with_head a n s,
      set_rf_tech_spec_params-with_tech a n.rx_buf (with_head a n.rf_intf) refl h l,
      set_rf_intf_tail-described a n (10 + length (tech_bytes a))
          (with_tech a (with_head a n.rf_intf)) (omega (arith, tech_bytes_fit a h)) r,
    )

-- What the parameters say after the copy.
abbrev Keeps : List ℕ → Option ℕ → ParamsPa → ParamsPa → Type 0
Keeps xs o pa pa' =
    (pa'.sens_res0 ≡ pa.sens_res0)
    × (pa'.sens_res1 ≡ pa.sens_res1)
    × (pa'.nfcid_len ≡ length xs)
    × (slice pa'.nfcid 0 (length xs) ≡ xs)
    × (sel_res_of pa' ≡ o)

keep-Keeps :
    (xs : List ℕ) (o : Option ℕ) (pa : ParamsPa) → IsBytes xs → Keeps xs o pa (keep xs o pa)
keep-Keeps xs none pa h = (refl, refl, refl, slice-splice pa.nfcid 0 xs h, refl)
keep-Keeps xs (some r) pa h = (refl, refl, refl, slice-splice pa.nfcid 0 xs h, refl)

described-Describes : (a : Announced) (rf : RfIntf) → IsBytes a.nfcid → Describes a (described a rf)
described-Describes a rf h =
    let pa : ParamsPa = record rf.poll_a { sens_res0 = a.sens_res0; sens_res1 = a.sens_res1 } in
    let (sens0, sens1, len, nfcid, sel) = keep-Keeps a.nfcid a.sel_res pa h in
    record {
      id = refl;
      interface = refl;
      protocol = refl;
      max_payload_size = refl;
      credits = refl;
      activation_mode = refl;
      specific_type = refl;
      sens_res0 = sens0;
      sens_res1 = sens1;
      nfcid_len = len;
      nfcid = nfcid;
      sel_res = sel;
      exchange_mode = refl;
      tx_bitrate = refl;
      rx_bitrate = refl;
    }

-- A notification in the NCI format, of a tag in mode A with an identifier of at most ten bytes, is
-- parsed into what it announces, in the state DISCOVERY: the status is OK, the object's interface is the
-- one announced, its data are that interface and its state is POLL_ACTIVE.
pub ntf_rf_intf_activated-Describes :
    (a : Announced) (n : NfcNci)
    → n.state ≡ rfst_discovery
    → length a.nfcid ≤ 10
    → IsBytes a.nfcid
    → n.rx_buf 2 ≡ length (encode a)
    → StandAt n.rx_buf 3 (encode a)
    → (rf : RfIntf) × Describes a rf
      × (ntf_rf_intf_activated 2 n
          ≡ done (
            status_ok,
            record n { rf_intf = rf; data_ptr = at_rf_intf; state = rfst_poll_active },
          ))
unfolding ntf_rf_intf_activated encode
ntf_rf_intf_activated-Describes a n e h k len s =
    let rf : RfIntf = described a n.rf_intf in
    (
      rf,
      described-Describes a n.rf_intf k,
      ground
          (arith, e, len, length-append (tech_bytes a) (closing a), set_rf_intf-described a n h s),
    )
