-- ===== src/Sketch/Corrupted.antt =====
-- examples/TagDump/TagDump.ino: the loop while a dump waits for blocks, and a message comes without them.
use arduino_nfc.Common.{
  ℕ, ◌≡◌, ◌≢◌, ◌∙◌, refl, sym, subst, true, some, List, [], ◌∷◌, ◌++◌, length, IsBytes, inr, arith,
}
use arduino_nfc.Common.Outcome.{done}
use arduino_nfc.Common.Buffer.{Buf}
use arduino_nfc.Hw.{NfcHw}
use arduino_nfc.Nci.Types.{NfcNci, rfst_poll_active, null, at_rx}
use arduino_nfc.Nci.Header.{uint16_id}
use arduino_nfc.Nci.Events.Receiving.{
  Packet, IsPacket, Gives, payload, received, received-Stands, handle_event-Gives,
}
use arduino_nfc.Nci.Events.Notification.{StandAt, StandAt-append}
use arduino_nfc.Tags.Types.{NfcTags, Type2, dumping, to_tag2, t2_none, t2_id_dump}
use arduino_nfc.Tags.Type2.{drop_dump}
use arduino_nfc.Tags.Type2.Reading.{FourBlocks, dump_call, handle_data-corrupted}
use arduino_nfc.Tags.Interface.{intf_handle_data}
use arduino_nfc.Tags.Stack.{set_nci_response}
use arduino_nfc.Tags.Callbacks.{on_notice, on_data}
use arduino_nfc.Tags.System.{nci_turn, deliver}
use arduino_nfc.Sketch.{tell, turn, layers, pass, passes}
use arduino_nfc.Sketch.Application.{dump_application}
use arduino_nfc.Sketch.Exchanges.{Idle}
use arduino_nfc.Sketch.Repeats.{Looks}
use arduino_nfc.Sketch.Detection.{received-StandAt}
use arduino_nfc.Sketch.Release.{Releases, let_go}
use arduino_nfc.Sketch.Blocks.{data_route}
use arduino_nfc.Sketch.Waiting.{
  AwaitsBlocks, awaiting, dump_handle_event-Idles, handle_event-AwaitsBlocks,
}
use arduino_nfc.Sketch.Dump.{
  dump_sketch, dump_receive, dump_cb_dump, st_dump_response, st_deactivate,
}

-- A data packet of another size than the 17 bytes of four blocks and their status, or with a status that
-- is not 0.
pub data Corrupt (p : Packet) : Type 0 where
  wrong_size : length (payload p) ≢ 17 → Corrupt p
  bad_status :
      (blocks : List ℕ) (status : ℕ)
      → payload p ≡ blocks ++ (status ∷ [])
      → length blocks ≡ 16
      → status ≢ 0
      → IsBytes (payload p)
      → Corrupt p

Corrupt-FourBlocks : (p : Packet) (b : Buf) → IsPacket p → Corrupt p → ¬ FourBlocks (received p b)
Corrupt-FourBlocks p b v (wrong_size h) f = h (sym (received-Stands p b v).size ∙ f.size)
Corrupt-FourBlocks p b v (bad_status blocks status e l h y) f =
    let stands = subst (λ xs. StandAt (received p b) 3 xs) e (received-StandAt p b y) in
    let behind =
      StandAt-append (received p b) 3 19 blocks (status ∷ []) (omega (arith, l)) stands in
    h (sym behind.1.0 ∙ f.status)

abbrev dropped : NfcTags → NfcTags
dropped t = record (set_nci_response 0 (uint16_id 0 0) (at_rx 2) t) { tag2 = drop_dump t.tag2 }

on_data_drops :
    (t : NfcTags) (n : NfcNci)
    → t.intf ≡ to_tag2
    → t.tag2.registered ≡ true
    → t.tag2.id ≡ t2_id_dump
    → ¬ FourBlocks n.rx_buf
    → on_data 0 (uint16_id 0 0) (at_rx 2) t n ≡ done (some (dump_call null 0 0), dropped t)
unfolding on_data intf_handle_data set_nci_response
on_data_drops t n i r k f = rw (i, handle_data-corrupted t.tag2 n r k f)

drop_dump_frees : (t : Type2) → (drop_dump t).state ≡ t2_none
unfolding drop_dump
drop_dump_frees t = refl

drop_dump_registered : (t : Type2) → (drop_dump t).registered ≡ t.registered
unfolding drop_dump
drop_dump_registered t = refl

module _ (hw : NfcHw) where
  open hw use {World}

  -- The tag's interface is free again, and the sketch is about to deactivate the tag.
  abbrev Dropped : NfcTags → NfcNci → World → World → Type 0
  Dropped t n w w' =
      (t' : NfcTags) × (n' : NfcNci) × Idle t'
      × (t'.state ≡ dumping)
      × (n'.state ≡ rfst_poll_active)
      × (n'.registered ≡ true)
      × (pass dump_sketch hw st_dump_response t n w ≡ done (st_deactivate, t', n', w'))

  pass-Dropped :
      (p : Packet) (t : NfcTags) (n : NfcNci) (w w' : World)
      → AwaitsBlocks t n
      → t.tag2.registered ≡ true
      → t.tag2.id ≡ t2_id_dump
      → Gives hw p w w'
      → p.byte0 ≡ 0
      → Corrupt p
      → Dropped t n w w'
  unfolding pass layers turn tell nci_turn deliver on_notice dump_receive dump_cb_dump
      set_nci_response
  pass-Dropped p t n w w' g r k given b0 c =
      let m = record n { rx_buf = received p n.rx_buf } in
      let n2 = record m { data_ptr = at_rx 2 } in
      (
        dropped t,
        n2,
        record {
          registered = g.registered;
          tag_registered = drop_dump_registered t.tag2 ∙ r;
          tag_idle = drop_dump_frees t.tag2;
        },
        g.tags,
        g.nci,
        g.nci_registered,
        rw (
          dump_handle_event-Idles st_dump_response t awaiting,
          handle_event-AwaitsBlocks hw t n w g,
          handle_event-Gives hw p n w w' g.nci_registered given,
          data_route m ((received-Stands p n.rx_buf given.valid).byte0 ∙ b0),
          on_data_drops t n2 g.intf r k (Corrupt-FourBlocks p n.rx_buf given.valid c),
        ),
      )

  -- The bug: a corrupted message passes for the end of a dump. While the tag's interface waits for blocks,
  -- with an application registered, on a controller that sends a data packet of another size than 17 bytes
  -- or with a status that is not 0, and then takes and answers the deactivation: three passes of the loop
  -- of the dump sketch return, without its state of an error at the end, and then the sketch and both
  -- layers look for tags, with the tag's interface free for the next dump.
  pub corrupted-Looks :
      (p : Packet) (t : NfcTags) (n : NfcNci) (w v w' : World)
      → AwaitsBlocks t n
      → t.tag2.registered ≡ true
      → t.tag2.id ≡ t2_id_dump
      → Gives hw p w v
      → p.byte0 ≡ 0
      → Corrupt p
      → Releases hw v w'
      → Looks hw dump_sketch dump_application 3 st_dump_response t n w w'
  unfolding passes dump_application
  corrupted-Looks p t n w v w' g r k given b0 c rel =
      let (t1, n1, o, s, a, m, e1) = pass-Dropped p t n w v g r k given b0 c in
      let (t2, n2, g2, e2) = let_go hw dump_sketch dump_application t1 n1 v w' (inr s) o a m rel in
      (t2, n2, g2, rw e1 e2)
