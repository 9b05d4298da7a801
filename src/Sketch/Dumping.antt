-- ===== src/Sketch/Dumping.antt =====
-- examples/TagDump/TagDump.ino: the passes of the loop in which a tag is dumped.
use arduino_nfc.Common.{
  ℕ, zero, suc, ◌≤◌, ◌≡◌, ltb, if◌then◌else◌, refl, ◌∙◌, true, List, none, arith,
}
use arduino_nfc.Common.Outcome.{done}
use arduino_nfc.Common.Buffer.{Buf}
use arduino_nfc.Hw.{NfcHw}
use arduino_nfc.Nci.Types.{NfcNci, rfst_poll_active, at_rx}
use arduino_nfc.Nci.Events.Receiving.{Packet, Gives, received, received-Stands, handle_event-Gives}
use arduino_nfc.Tags.Types.{NfcTags, to_tag2, dumping, tags_id_dump}
use arduino_nfc.Tags.Type2.Rounds.{TakesReads, read_packet, Asks, handle_dump-Sends}
use arduino_nfc.Tags.Interface.{intf_handle_dump}
use arduino_nfc.Tags.Callbacks.{on_notice}
use arduino_nfc.Tags.Handlers.{handle_event, handle_dump, notify}
use arduino_nfc.Tags.System.{nci_turn, deliver}
use arduino_nfc.Sketch.{tell, turn, layers, pass, passes}
use arduino_nfc.Sketch.Waiting.{
  AwaitsBlocks, CoreNotices, no_notice, then_notice, awaiting, nci_turn-CoreNotice,
  dump_handle_event-Idles, AwaitsBlocks-kept, pass_idle, handle_event-AwaitsBlocks,
}
use arduino_nfc.Sketch.Dump.{
  DumpState, dump_sketch, dump_handle_event, dump_receive, dump_cb_dump, st_dump_response,
  st_deactivate,
}
use arduino_nfc.Sketch.Blocks.{
  Carries, Carries-FourBlocks, data_route, on_data_takes, asked, read_done,
}

module _ (hw : NfcHw) where
  open hw use {World}

  -- A dump goes on at a block.
  pub record Dumping (block : ℕ) (t : NfcTags) (n : NfcNci) : Type 0 where
    pub tags : t.state ≡ dumping
    pub tags_id : t.id ≡ tags_id_dump
    pub intf : t.intf ≡ to_tag2
    pub asks : Asks hw t.tag2 block
    pub nci : n.state ≡ rfst_poll_active
    pub registered : t.registered ≡ true
    pub nci_registered : n.registered ≡ true

  read_sent :
      (block : ℕ) (t : NfcTags) (n : NfcNci) (w : World)
      → Dumping block t n
      → block ≤ 12
      → TakesReads hw
      → (tx : Buf) × (handle_event hw t n w
          ≡ done (none, asked t, record n { tx_buf = tx }, (hw.write (read_packet hw block) w).1))
  unfolding handle_event handle_dump notify intf_handle_dump
  read_sent block t n w g l takes =
      let (tx, e) =
        handle_dump-Sends hw t.tag2 n w takes g.nci g.asks.state (omega (arith, g.asks.at_block)) in
      (tx, ground (arith, g.tags_id, g.tags, g.intf, e, g.asks.at_block))

  -- The turn of the NCI layer in which the blocks come.
  blocks_received :
      (block : ℕ) (blocks : List ℕ) (p : Packet) (s : DumpState) (t : NfcTags) (n : NfcNci)
      (w w' : World)
      → AwaitsBlocks (asked t) n
      → Asks hw t.tag2 block
      → Gives hw p w w'
      → Carries blocks p
      → (n' : NfcNci) × (n'.state ≡ rfst_poll_active)
        × (n'.registered ≡ true)
        × (turn dump_sketch hw s (nci_turn hw (asked t) n w)
            ≡ done
                ((if ltb block 12 then st_dump_response else st_deactivate), read_done t, n', w'))
  unfolding turn tell nci_turn deliver on_notice dump_receive dump_cb_dump
  blocks_received block blocks p s t n w w' g a given h =
      let m = record n { rx_buf = received p n.rx_buf } in
      let four = Carries-FourBlocks blocks p n.rx_buf given.valid h in
      let n2 = record m { data_ptr = at_rx 2 } in
      (
        n2,
        g.nci,
        g.nci_registered,
        rw
            (
              handle_event-Gives hw p n w w' g.nci_registered given,
              data_route m ((received-Stands p n.rx_buf given.valid).byte0 ∙ h.byte0),
              on_data_takes (asked t) n2 g.intf a.registered a.id four,
              a.at_block,
            )
            (ground arith),
      )

  -- The READ command is sent, and the interface waits for its blocks.
  asked-AwaitsBlocks :
      (block : ℕ) (t : NfcTags) (n : NfcNci) (tx : Buf)
      → Dumping block t n
      → AwaitsBlocks (asked t) (record n { tx_buf = tx })
  asked-AwaitsBlocks block t n tx g = record {
    tags = g.tags;
    tags_id = g.tags_id;
    intf = g.intf;
    tag = refl;
    registered = g.registered;
    nci = g.nci;
    nci_registered = g.nci_registered;
  }

  -- The READ command, so many notifications of the core group, and the packet with the blocks.
  pub record Reads (block k : ℕ) (w w' : World) : Type 0 where
    pub mid : World
    pub notices : CoreNotices hw k (hw.write (read_packet hw block) w).1 mid
    pub blocks : List ℕ
    pub packet : Packet
    pub gives : Gives hw packet mid w'
    pub carries : Carries blocks packet

  -- The sketch and the tag API after so many passes in which blocks come last.
  abbrev Finishes : ℕ → ℕ → DumpState → NfcTags → NfcTags → NfcNci → World → World → Type 0
  Finishes block k s t0 t n w w' =
      (n' : NfcNci) × (n'.state ≡ rfst_poll_active)
      × (n'.registered ≡ true)
      × (passes dump_sketch hw (suc k) s t0 n w
          ≡ done ((if ltb block 12 then st_dump_response else st_deactivate), read_done t, n', w'))

  blocks_awaited :
      (block k : ℕ) (blocks : List ℕ) (p : Packet) (t : NfcTags) (n : NfcNci) (w v w' : World)
      → AwaitsBlocks (asked t) n
      → Asks hw t.tag2 block
      → CoreNotices hw k w v
      → Gives hw p v w'
      → Carries blocks p
      → Finishes block k st_dump_response (asked t) t n w w'
  unfolding passes pass layers turn tell
  blocks_awaited block zero blocks p t n w v w' g a no_notice given h =
      let (n', s, r, e) = blocks_received block blocks p st_dump_response t n w w' g a given h in
      (
        n',
        s,
        r,
        rw
            (
              dump_handle_event-Idles st_dump_response (asked t) awaiting,
              handle_event-AwaitsBlocks hw (asked t) n w g,
            )
            (rw e),
      )
  blocks_awaited block (suc k) blocks p t n w v w' g a (then_notice {v = u} x xs) given h =
      let (n1, g1, e1) = pass_idle hw st_dump_response (asked t) n w u awaiting g x in
      let (n2, s, r, e2) = blocks_awaited block k blocks p t n1 u v w' g1 a xs given h in
      (n2, s, r, rw e1 e2)

  blocks_after :
      (block k : ℕ) (blocks : List ℕ) (p : Packet) (s : DumpState) (t0 t : NfcTags) (n n1 : NfcNci)
      (w u v w' : World)
      → dump_handle_event s t0 ≡ done (st_dump_response, t)
      → handle_event hw t n w ≡ done (none, asked t, n1, u)
      → AwaitsBlocks (asked t) n1
      → Asks hw t.tag2 block
      → CoreNotices hw k u v
      → Gives hw p v w'
      → Carries blocks p
      → Finishes block k s t0 t n w w'
  unfolding passes pass layers turn tell
  blocks_after block zero blocks p s t0 t n n1 w u v w' e sent g a no_notice given h =
      let (n', k, r, e1) = blocks_received block blocks p st_dump_response t n1 u w' g a given h in
      (n', k, r, rw (e, sent) (rw e1))
  blocks_after block (suc k) blocks p s t0 t n n1 w u v w' e sent g a (then_notice {v = x} c cs)
        given h =
      let m = record n1 { rx_buf = received c.0 n1.rx_buf } in
      let (n', l, r, e1) =
        blocks_awaited block k blocks p t m x v w' (AwaitsBlocks-kept (asked t) n1 _ g) a cs given
          h in
      (n', l, r, rw (e, sent, nci_turn-CoreNotice hw (asked t) n1 u x g.nci_registered c) e1)

  -- The passes in which blocks are read, from one in which the sketch gives `t`.
  pub blocks_read :
      (block k : ℕ) (s : DumpState) (t0 t : NfcTags) (n : NfcNci) (w w' : World)
      → dump_handle_event s t0 ≡ done (st_dump_response, t)
      → Dumping block t n
      → block ≤ 12
      → TakesReads hw
      → Reads block k w w'
      → Finishes block k s t0 t n w w'
  blocks_read block k s t0 t n w w' e g l takes r =
      let (tx, sent) = read_sent block t n w g l takes in
      blocks_after block k r.blocks r.packet s t0 t n (record n { tx_buf = tx }) w _ r.mid w' e sent
        (asked-AwaitsBlocks block t n tx g) g.asks r.notices r.gives r.carries
