-- ===== src/Sketch/Cycle.antt =====
-- examples/TagDump/TagDump.ino: from the search for tags to the end of a dump, and back.
use arduino_nfc.Common.{ℕ, suc, ap, ◌∙◌, ◌+◌, ◌<◌, subst, ◌≡◌, refl, true, some, arith}
use arduino_nfc.Common.Outcome.{Outcome, done}
use arduino_nfc.Hw.{NfcHw}
use arduino_nfc.Nci.Types.{at_rf_intf, NfcNci, rfst_discovery, rfst_poll_active}
use arduino_nfc.Nci.Events.Receiving.{Packet, Gives}
use arduino_nfc.Nci.Events.Notification.{Announced}
use arduino_nfc.Tags.Types.{
  NfcTags, no_tag, cb_discover_ntf, tags_id_discover_activated, to_tag2, dumping, discover_ntf,
  discover_activated, tags_id_dump, tags_id_discover, t2_none,
}
use arduino_nfc.Tags.Type2
use arduino_nfc.Tags.Type2.Rounds.{
  TakesReads, take_blocks-Asks, take_blocks_ends, take_blocks_registered, cmd_dump-Asks,
}
use arduino_nfc.Tags.Interface.{intf_cmd_dump, get_type, intf_get_nfcid_len, intf_get_nfcid_buf}
use arduino_nfc.Tags.Stack.{rf_intf_at, cmd_dump, set_nci_response}
use arduino_nfc.Tags.Found.{interface_for}
use arduino_nfc.Sketch.{passes}
use arduino_nfc.Sketch.Dump.{
  dump_sketch, DumpState, dump_receive, dump_cb_discover_ntf, dump_handle_event, st_discovering,
  st_dump_response, st_deactivate, st_dump,
}
use arduino_nfc.Sketch.Exchanges.{Idle, Stage}
use arduino_nfc.Sketch.Application.{dump_application}
use arduino_nfc.Tags.Progress.{call_of}
use arduino_nfc.Tags.Chosen.{chosen}
use arduino_nfc.Tags.Type2.{take_blocks, get_nfcid_len, get_nfcid_buf}
use arduino_nfc.Sketch.Detection.{Announces, PointsTo, pass_found}
use arduino_nfc.Sketch.Dumping.{Dumping, Reads, blocks_read}
use arduino_nfc.Sketch.Blocks.{read_done}
use arduino_nfc.Sketch.Waiting.{awaiting, dump_handle_event-Idles}
use arduino_nfc.Sketch.Repeats.{passes_add}

-- The tag API that is to dump.
abbrev commanded : NfcTags → NfcTags
commanded t = record t { tag2 = (Type2.cmd_dump t.tag2).1; state = dumping; id = tags_id_dump }

dump_commanded :
    (t : NfcTags)
    → t.state ≡ discover_activated
    → t.intf ≡ to_tag2
    → t.tag2.state ≡ t2_none
    → dump_handle_event st_dump t ≡ done (st_dump_response, commanded t)
unfolding dump_handle_event cmd_dump intf_cmd_dump Type2.cmd_dump
dump_commanded t s i k = ground (arith, s, i, k)

-- A tag of type 2 is dumped.
type_2-dump :
    (a : Announced) (t : NfcTags) (n : NfcNci)
    → interface_for a ≡ some to_tag2
    → PointsTo (interface_for a) t
    → dump_receive (call_of cb_discover_ntf tags_id_discover_activated) st_discovering t n
      ≡ done st_dump
unfolding dump_receive dump_cb_discover_ntf get_type intf_get_nfcid_len intf_get_nfcid_buf
    get_nfcid_len get_nfcid_buf rf_intf_at
type_2-dump a t n k h =
    let (i, e) : (t.intf ≡ to_tag2) × (t.tag2.rf ≡ at_rf_intf) = subst (λ o. PointsTo o t) k h in
    rw (i, e)

module _ (hw : NfcHw) where
  open hw use {World}

  commanded-Dumping :
      (t : NfcTags) (n : NfcNci)
      → t.intf ≡ to_tag2
      → t.tag2.state ≡ t2_none
      → t.tag2.registered ≡ true
      → t.registered ≡ true
      → n.state ≡ rfst_poll_active
      → n.registered ≡ true
      → Dumping hw 0 (commanded t) n
  commanded-Dumping t n i k j r a m = record {
    tags = refl;
    tags_id = refl;
    intf = i;
    asks = cmd_dump-Asks hw t.tag2 j k;
    nci = a;
    registered = r;
    nci_registered = m;
  }

  after :
      (j k : ℕ) (s : DumpState) (t : NfcTags) (n : NfcNci) (w : World)
      {r : DumpState × NfcTags × NfcNci × World}
      {o : Outcome (DumpState × NfcTags × NfcNci × World)}
      → passes dump_sketch hw j s t n w ≡ done r
      → passes dump_sketch hw k r.0 r.1 r.2 r.3 ≡ o
      → passes dump_sketch hw (j + k) s t n w ≡ o
  after j k s t n w e f = passes_add hw dump_sketch j k s t n w ∙ rw e f

  read_done-Dumping :
      (block : ℕ) (t : NfcTags) (n n' : NfcNci)
      → Dumping hw block t n
      → block < 12
      → n'.state ≡ rfst_poll_active
      → n'.registered ≡ true
      → Dumping hw (block + 4) (read_done t) n'
  unfolding set_nci_response
  read_done-Dumping block t n n' g l a m = record {
    tags = g.tags;
    tags_id = g.tags_id;
    intf = g.intf;
    asks = take_blocks-Asks hw t.tag2 block g.asks l;
    nci = a;
    registered = g.registered;
    nci_registered = m;
  }

  -- The controller announces a tag of type 2, and answers the four READ commands, with so many
  -- notifications of the core group between the commands and the answers.
  pub record Dumps (k : ℕ) (w w' : World) : Type 0 where
    pub tag : Announced
    pub notification : Packet
    pub announces : Announces tag notification
    pub of_type_2 : interface_for tag ≡ some to_tag2
    pub takes : TakesReads hw
    pub w0 : World
    pub w1 : World
    pub w2 : World
    pub w3 : World
    pub k0 : ℕ
    pub k1 : ℕ
    pub k2 : ℕ
    pub k3 : ℕ
    pub total : k ≡ k0 + (k1 + (k2 + k3))
    pub gives : Gives hw notification w w0
    pub read0 : Reads hw 0 k0 w0 w1
    pub read4 : Reads hw 4 k1 w1 w2
    pub read8 : Reads hw 8 k2 w2 w3
    pub read12 : Reads hw 12 k3 w3 w'

  -- More blocks are to follow.
  more_read :
      (block k : ℕ) (s : DumpState) (t0 t : NfcTags) (n : NfcNci) (w w' : World)
      → dump_handle_event s t0 ≡ done (st_dump_response, t)
      → Dumping hw block t n
      → block < 12
      → TakesReads hw
      → Reads hw block k w w'
      → (n' : NfcNci) × Dumping hw (block + 4) (read_done t) n'
        × (passes dump_sketch hw (suc k) s t0 n w ≡ done (st_dump_response, read_done t, n', w'))
  more_read block k s t0 t n w w' e g l takes r =
      let (n', a, m, f) = blocks_read hw block k s t0 t n w w' e g (omega arith) takes r in
      (n', read_done-Dumping block t n n' g l a m, f ∙ ground arith)

  -- After so many passes the dump has ended, and the sketch is about to deactivate the tag.
  abbrev Done : ℕ → DumpState → NfcTags → NfcNci → World → World → Type 0
  Done k s t n w w' =
      (t' : NfcTags) × (n' : NfcNci) × Idle t'
      × (t'.state ≡ dumping)
      × (n'.state ≡ rfst_poll_active)
      × (n'.registered ≡ true)
      × (passes dump_sketch hw k s t n w ≡ done (st_deactivate, t', n', w'))

  abbrev pub Ended : ℕ → NfcTags → NfcNci → World → World → Type 0
  Ended k t n w w' = Done (5 + k) st_discovering t n w w'

  memory_read :
      (k : ℕ) (t : NfcTags) (n : NfcNci) (w w' : World) (c : Dumps k w w')
      → t.state ≡ discover_activated
      → t.intf ≡ to_tag2
      → Idle t
      → n.state ≡ rfst_poll_active
      → n.registered ≡ true
      → Done (suc c.k0 + (suc c.k1 + (suc c.k2 + suc c.k3))) st_dump t n c.w0 w'
  unfolding set_nci_response take_blocks
  memory_read k t n w w' c s i o a m =
      let t0 = commanded t in
      let a0 = commanded-Dumping t n i o.tag_idle o.tag_registered o.registered a m in
      let (n1, a1, e1) =
        more_read 0 c.k0 st_dump t t0 n c.w0 c.w1 (dump_commanded t s i o.tag_idle) a0 (omega arith)
          c.takes c.read0 in
      let t1 = read_done t0 in
      let (n2, a2, e2) =
        more_read 4 c.k1 st_dump_response t1 t1 n1 c.w1 c.w2
          (dump_handle_event-Idles st_dump_response t1 awaiting) a1 (omega arith) c.takes c.read4 in
      let t2 = read_done t1 in
      let (n3, a3, e3) =
        more_read 8 c.k2 st_dump_response t2 t2 n2 c.w2 c.w3
          (dump_handle_event-Idles st_dump_response t2 awaiting) a2 (omega arith) c.takes c.read8 in
      let t3 = read_done t2 in
      let (n4, a4, m4, e4) =
        blocks_read hw 12 c.k3 st_dump_response t3 t3 n3 c.w3 w'
          (dump_handle_event-Idles st_dump_response t3 awaiting) a3 (omega arith) c.takes
          c.read12 in
      (
        read_done t3,
        n4,
        record {
          registered = a3.registered;
          tag_registered = take_blocks_registered hw t3.tag2 a3.asks;
          tag_idle = take_blocks_ends hw t3.tag2 a3.asks;
        },
        a3.tags,
        a4,
        m4,
        after (suc c.k0) _ st_dump t n c.w0 e1 (
            after (suc c.k1) _ st_dump_response t1 n1 c.w1 e2
              (after (suc c.k2) _ st_dump_response t2 n2 c.w2 e3 e4)),
      )

  -- While the dump sketch and both layers look for tags, and on a controller that announces a tag of type 2
  -- in mode A, in the NCI format, and then takes the READ commands and answers those for the blocks 0, 4,
  -- 8 and 12 with sixteen bytes each, after any number of notifications of the core group, five passes of
  -- the loop and one for each of those return; then the dump has ended, and the sketch is about to
  -- deactivate the tag.
  pub tag_dumped :
      (k : ℕ) (t : NfcTags) (n : NfcNci) (w w' : World)
      → Stage discover_ntf tags_id_discover rfst_discovery t n
      → Dumps k w w'
      → Ended k t n w w'
  unfolding passes dump_application
  tag_dumped k t n w w' g c =
      let (t0, n0, g0, e) =
        pass_found hw dump_sketch dump_application c.tag c.notification t n w c.w0 st_dump g c.gives
          c.announces (λ t' n' h. type_2-dump c.tag t' n' c.of_type_2 h) in
      let i : t0.intf ≡ to_tag2 = subst (λ o. t0.intf ≡ chosen o no_tag) c.of_type_2 g0.intf in
      let (t1, n1, o, s, a, m, e1) =
        memory_read k t0 n0 w w' c g0.tags i g0.idle g0.nci g0.nci_registered in
      let count : 5 + k ≡ suc (suc c.k0 + (suc c.k1 + (suc c.k2 + suc c.k3))) =
        omega (arith, c.total) in
      (t1, n1, o, s, a, m, ap (λ j. passes dump_sketch hw j st_discovering t n w) count ∙ rw e e1)
