-- ===== src/Sketch/Waiting.antt =====
-- examples: passes of the loop in which the controller sends a notification that both layers pass over, as
-- that of the credits of a connection, which follows every data packet.
use arduino_nfc.Common.{
  ℕ, zero, suc, ◌≡◌, ◌∙◌, refl, if◌then◌else◌, ◌==◌, true, Option, none, arith,
}
use arduino_nfc.Common.Outcome.{done}
use arduino_nfc.Common.Buffer.{Buf}
use arduino_nfc.Hw.{NfcHw}
use arduino_nfc.Nci.Types.{
  NfcNci, Notice, null, rfst_discovery, rfst_poll_active, status_unknown_oid, cb_error,
  core_conn_credits,
}
use arduino_nfc.Nci.Header.{mt_of, pbf_of, gid_of, oid_of, uint16_id}
use arduino_nfc.Nci.Events.{handle_packet, handle_core_event, notice, report}
use arduino_nfc.Nci.Events.Receiving.{Packet, Gives, received, received-Stands, handle_event-Gives}
use arduino_nfc.Tags.Types.{
  NfcTags, dumping, discover_ntf, tags_id_discover, tags_id_dump, to_tag2, t2_dump_rsp,
}
use arduino_nfc.Tags.Type2
use arduino_nfc.Tags.Interface.{intf_handle_dump}
use arduino_nfc.Tags.Callbacks.{on_notice, on_error}
use arduino_nfc.Tags.Handlers.{handle_event, handle_dump, notify}
use arduino_nfc.Tags.System.{nci_turn, deliver}
use arduino_nfc.Sketch.Application.{Application}
use arduino_nfc.Sketch.Exchanges.{Stage, Passes}
use arduino_nfc.Sketch.Detection.{discover_ntf_waits}
use arduino_nfc.Sketch.{Sketch, tell, turn, layers, pass, passes}
use arduino_nfc.Sketch.Dump.{DumpState, dump_sketch, dump_handle_event, st_dump_response, st_error}

-- What a notification of the core group comes to.
abbrev core_notice : ℕ → Option Notice
core_notice oid =
    if oid == core_conn_credits
    then none
    else notice cb_error status_unknown_oid (uint16_id 3 oid) null

core_route :
    (n : NfcNci) → n.rx_buf 0 ≡ 0x60 → handle_packet n ≡ done (core_notice (oid_of (n.rx_buf 1)), n)
unfolding handle_packet handle_core_event report mt_of pbf_of gid_of
core_route n b0 = rw b0 (ground arith)

core_notice_dropped :
    (oid : ℕ) (t : NfcTags) (n : NfcNci) → deliver (core_notice oid) t n ≡ done (none, t)
unfolding deliver on_notice on_error
core_notice_dropped oid t n = ground arith

-- The tag's interface has sent a READ command, and waits for the blocks.
pub record AwaitsBlocks (t : NfcTags) (n : NfcNci) : Type 0 where
  pub tags : t.state ≡ dumping
  pub tags_id : t.id ≡ tags_id_dump
  pub intf : t.intf ≡ to_tag2
  pub tag : t.tag2.state ≡ t2_dump_rsp
  pub registered : t.registered ≡ true
  pub nci : n.state ≡ rfst_poll_active
  pub nci_registered : n.registered ≡ true

pub AwaitsBlocks-kept :
    (t : NfcTags) (n : NfcNci) (b : Buf)
    → AwaitsBlocks t n
    → AwaitsBlocks t (record n { rx_buf = b })
AwaitsBlocks-kept t n b g = record {
  tags = g.tags;
  tags_id = g.tags_id;
  intf = g.intf;
  tag = g.tag;
  registered = g.registered;
  nci = g.nci;
  nci_registered = g.nci_registered;
}

-- The states in which the sketch waits for the end of a dump, or has given up.
pub data Idles : DumpState → Type 0 where
  awaiting : Idles st_dump_response
  failed : Idles st_error

pub dump_handle_event-Idles :
    (a : DumpState) (t : NfcTags) → Idles a → dump_handle_event a t ≡ done (a, t)
unfolding dump_handle_event
dump_handle_event-Idles a t awaiting = refl
dump_handle_event-Idles a t failed = refl

module _ (hw : NfcHw) where
  open hw use {World}

  -- The controller's next packet is a notification of the core group.
  abbrev pub CoreNotice : World → World → Type 0
  CoreNotice w w' = (p : Packet) × Gives hw p w w' × (p.byte0 ≡ 0x60)

  -- So many such packets.
  pub data CoreNotices : ℕ → World → World → Type 0 where
    no_notice : {w : World} → CoreNotices 0 w w
    then_notice :
        {k : ℕ} {w v w' : World} → CoreNotice w v → CoreNotices k v w' → CoreNotices (suc k) w w'

  -- A turn of the NCI layer on such a packet changes its receive buffer only.
  pub nci_turn-CoreNotice :
      (t : NfcTags) (n : NfcNci) (w w' : World)
      → n.registered ≡ true
      → (c : CoreNotice w w')
      → nci_turn hw t n w ≡ done (none, t, record n { rx_buf = received c.0 n.rx_buf }, w')
  unfolding nci_turn
  nci_turn-CoreNotice t n w w' k (p, given, b0) =
      let m = record n { rx_buf = received p n.rx_buf } in
      rw (
        handle_event-Gives hw p n w w' k given,
        core_route m ((received-Stands p n.rx_buf given.valid).byte0 ∙ b0),
        core_notice_dropped (oid_of (m.rx_buf 1)) t m,
      )

  -- The tag API has nothing to do.
  pub handle_event-AwaitsBlocks :
      (t : NfcTags) (n : NfcNci) (w : World)
      → AwaitsBlocks t n
      → handle_event hw t n w ≡ done (none, t, n, w)
  unfolding handle_event handle_dump notify intf_handle_dump Type2.handle_dump
  handle_event-AwaitsBlocks t n w g = ground (arith, g.tags_id, g.tags, g.intf, g.tag)

  abbrev pub StaysPut : DumpState → ℕ → NfcTags → NfcNci → World → World → Type 0
  StaysPut a k t n w w' =
      (n' : NfcNci) × AwaitsBlocks t n' × (passes dump_sketch hw k a t n w ≡ done (a, t, n', w'))

  pub pass_idle :
      (a : DumpState) (t : NfcTags) (n : NfcNci) (w w' : World)
      → Idles a
      → AwaitsBlocks t n
      → CoreNotice w w'
      → (n' : NfcNci) × AwaitsBlocks t n' × (pass dump_sketch hw a t n w ≡ done (a, t, n', w'))
  unfolding pass layers turn tell
  pass_idle a t n w w' i g c = (
    record n { rx_buf = received c.0 n.rx_buf },
    AwaitsBlocks-kept t n _ g,
    rw (
      dump_handle_event-Idles a t i,
      handle_event-AwaitsBlocks t n w g,
      nci_turn-CoreNotice t n w w' g.nci_registered c,
    ),
  )

  -- While the tag's interface waits for blocks, any number of notifications of the core group, as the one of
  -- an interface that has lost its tag, changes neither the sketch nor the tag API.
  pub passes_idle :
      (k : ℕ) (a : DumpState) (t : NfcTags) (n : NfcNci) (w w' : World)
      → Idles a
      → AwaitsBlocks t n
      → CoreNotices k w w'
      → StaysPut a k t n w w'
  unfolding passes
  passes_idle zero a t n w w' i g no_notice = (n, g, refl)
  passes_idle (suc k) a t n w w' i g (then_notice {v = v} x xs) =
      let (n1, g1, e1) = pass_idle a t n w v i g x in
      let (n2, g2, e2) = passes_idle k a t n1 v w' i g1 xs in (n2, g2, rw e1 e2)

  -- A sketch that looks for tags goes on to do so.
  pub pass_searching :
      (sk : Sketch) (app : Application sk) (t : NfcTags) (n : NfcNci) (w w' : World)
      → Stage discover_ntf tags_id_discover rfst_discovery t n
      → CoreNotice w w'
      → Passes hw sk app.discovering discover_ntf tags_id_discover rfst_discovery app.discovering t
          n w w'
  unfolding pass layers turn tell
  pass_searching sk app t n w w' g c = (
    t,
    record n { rx_buf = received c.0 n.rx_buf },
    record {
      tags = g.tags;
      tags_id = g.tags_id;
      nci = g.nci;
      intf = g.intf;
      idle = g.idle;
      nci_registered = g.nci_registered;
    },
    rw (
      app.awaits_tag t,
      discover_ntf_waits hw t n w g.tags g.tags_id,
      nci_turn-CoreNotice t n w w' g.nci_registered c,
    ),
  )
