-- ===== src/Sketch/Blocks.antt =====
-- src/tags/NfcTags.cpp over src/nci/NfcNci.cpp: a data packet with the blocks of a tag.
use arduino_nfc.Common.{
  ℕ, ◌≡◌, ltb, if◌then◌else◌, refl, subst, ◌∙◌, true, List, [], ◌∷◌, ◌++◌, length, length-append,
  some, IsBytes, arith,
}
use arduino_nfc.Common.Outcome.{done}
use arduino_nfc.Common.Buffer.{Buf}
use arduino_nfc.Nci.Types.{NfcNci, status_ok, at_rx, cb_data}
use arduino_nfc.Nci.Header.{mt_of, pbf_of, gid_of, oid_of, uint16_id}
use arduino_nfc.Nci.Events.{handle_packet, handle_data_event, notice}
use arduino_nfc.Nci.Events.Receiving.{Packet, IsPacket, payload, received, received-Stands}
use arduino_nfc.Nci.Events.Notification.{StandAt, StandAt-append}
use arduino_nfc.Tags.Types.{NfcTags, to_tag2, t2_dump_rsp}
use arduino_nfc.Tags.Type2.{take_blocks}
use arduino_nfc.Tags.Type2.Reading.{FourBlocks, dump_call, handle_data-takes}
use arduino_nfc.Tags.Interface.{intf_handle_data}
use arduino_nfc.Tags.Stack.{set_nci_response}
use arduino_nfc.Tags.Callbacks.{on_data}
use arduino_nfc.Sketch.Detection.{received-StandAt}

-- A data packet with the bytes of four blocks.
pub record Carries (blocks : List ℕ) (p : Packet) : Type 0 where
  pub byte0 : p.byte0 ≡ 0
  pub content : payload p ≡ blocks ++ (0 ∷ [])
  pub bytes : IsBytes (payload p)
  pub size : length blocks ≡ 16

pub Carries-FourBlocks :
    (blocks : List ℕ) (p : Packet) (b : Buf)
    → IsPacket p
    → Carries blocks p
    → FourBlocks (received p b)
Carries-FourBlocks blocks p b v h =
    let stands =
      subst (λ xs. StandAt (received p b) 3 xs) h.content (received-StandAt p b h.bytes) in
    let behind =
      StandAt-append (received p b) 3 19 blocks (0 ∷ []) (omega (arith, h.size)) stands in
    let len : length (payload p) ≡ length (blocks ++ (0 ∷ [])) =
      subst (λ xs. length (payload p) ≡ length xs) h.content refl in
    record {
      size =
          (received-Stands p b v).size ∙ omega (arith, len, length-append blocks (0 ∷ []), h.size);
      status = behind.1.0;
    }

pub data_route :
    (n : NfcNci)
    → n.rx_buf 0 ≡ 0
    → handle_packet n
      ≡ done (notice cb_data status_ok (uint16_id 0 0) (at_rx 2), record n { data_ptr = at_rx 2 })
unfolding handle_packet handle_data_event mt_of pbf_of gid_of oid_of
data_route n b0 = rw b0

abbrev after_data : NfcTags → NfcTags
after_data t = record (set_nci_response 0 (uint16_id 0 0) (at_rx 2) t) {
  tag2 = take_blocks 17 (at_rx 2) t.tag2;
}

pub on_data_takes :
    (t : NfcTags) (n : NfcNci)
    → t.intf ≡ to_tag2
    → t.tag2.registered ≡ true
    → t.tag2.id ≡ 1
    → FourBlocks n.rx_buf
    → on_data 0 (uint16_id 0 0) (at_rx 2) t n
      ≡ done (some (dump_call (at_rx 3) 16 (if ltb t.tag2.block 12 then 1 else 0)), after_data t)
unfolding on_data intf_handle_data set_nci_response
on_data_takes t n i r k f = rw (i, handle_data-takes t.tag2 n r k f)

-- The interface has sent its READ command.
abbrev pub asked : NfcTags → NfcTags
asked t = record t { tag2 = record (t.tag2) { state = t2_dump_rsp } }

-- The blocks have come.
abbrev pub read_done : NfcTags → NfcTags
read_done t = after_data (asked t)
