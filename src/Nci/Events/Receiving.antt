-- ===== src/Nci/Events/Receiving.antt =====
-- src/nci/NfcNci.cpp: `waitForEvent` when the hardware gives a whole packet.
use arduino_nfc.Common.{
  if_rule, false, Option, ℕ, ◌+◌, ◌%◌, ◌<◌, ◌≡◌, ◌==◌, not, List, [], ◌∷◌, length, true, arith,
}
use arduino_nfc.Common.Outcome.{Outcome, done, ◌>>=◌}
use arduino_nfc.Common.Buffer.{Buf, update}
use arduino_nfc.Common.Buffer.Bounds.{splice, splice_before, store_all-splice}
use arduino_nfc.Hw.{NfcHw}
use arduino_nfc.Nci.Types.{NfcNci, Notice}
use arduino_nfc.Nci.Events.{wait_for_event, handle_packet, handle_event, read_into}

-- A packet: its first two bytes, and a payload of at least one byte.
pub record Packet : Type 0 where
  pub byte0 : ℕ
  pub byte1 : ℕ
  pub first : ℕ
  pub rest : List ℕ

abbrev pub payload : Packet → List ℕ
payload p = p.first ∷ p.rest

pub record IsPacket (p : Packet) : Type 0 where
  pub byte0 : p.byte0 < 256
  pub byte1 : p.byte1 < 256
  pub first : p.first < 256
  pub size : length (payload p) < 256

abbrev pub header : Packet → List ℕ
header p = p.byte0 ∷ p.byte1 ∷ length (payload p) ∷ []

-- The receive buffer with the packet.
abbrev pub received : Packet → Buf → Buf
received p b = splice (splice b 0 (header p)) 3 (payload p)

-- The packet stands at the front of the buffer.
pub record Stands (p : Packet) (b : Buf) : Type 0 where
  pub byte0 : b 0 ≡ p.byte0
  pub byte1 : b 1 ≡ p.byte1
  pub size : b 2 ≡ length (payload p)
  pub first : b 3 ≡ p.first

header_size : (p : Packet) (b : Buf) → IsPacket p → splice b 0 (header p) 2 ≡ length (payload p)
unfolding splice
header_size p b h = ground (arith, h.size)

pub received-Stands : (p : Packet) (b : Buf) → IsPacket p → Stands p (received p b)
unfolding splice
received-Stands p b h = record {
  byte0 = ground (arith, splice_before (splice b 0 (header p)) 3 0 (payload p), h.byte0);
  byte1 = ground (arith, splice_before (splice b 0 (header p)) 3 1 (payload p), h.byte1);
  size = ground (arith, splice_before (splice b 0 (header p)) 3 2 (payload p), h.size);
  first =
      ground (
        arith,
        splice_before (update (splice b 0 (header p)) 3 (p.first % 256)) 4 3 p.rest,
        h.first,
      );
}

module _ (hw : NfcHw) where
  open hw use {World}

  -- The hardware's next packet.
  pub record Gives (p : Packet) (w w' : World) : Type 0 where
    pub valid : IsPacket p
    pub mid : World
    pub header_read : hw.read 3 w ≡ done (header p, 3, mid)
    pub payload_read : hw.read (length (payload p)) mid ≡ done (payload p, length (payload p), w')

  pub wait_for_event-Gives :
      (p : Packet) (n : NfcNci) (w w' : World)
      → Gives p w w'
      → wait_for_event hw n w
        ≡ done (length (payload p) + 3, record n { rx_buf = received p n.rx_buf }, w')
  unfolding wait_for_event read_into
  wait_for_event-Gives p n w w' g =
      rw
        (
          g.header_read,
          store_all-splice 258 n.rx_buf 0 (header p) (omega arith),
          header_size p n.rx_buf g.valid,
          g.payload_read,
          store_all-splice 258 (splice n.rx_buf 0 (header p)) 3 (payload p)
              (omega (arith, g.valid.size)),
        )
        (ground arith)

  -- A turn of the NCI layer with a client, on that packet.
  pub handle_event-Gives :
      (p : Packet) (n : NfcNci) (w w' : World)
      → n.registered ≡ true
      → Gives p w w'
      → handle_event hw n w
        ≡ (handle_packet (record n { rx_buf = received p n.rx_buf }) >>= λ r. done (r.0, r.1, w'))
  unfolding handle_event
  handle_event-Gives p n w w' k g =
      let not_null : (length (payload p) + 3 == 0) ≡ false = ground arith in
      if_rule
        (λ (r : Outcome (Option Notice × NfcNci × World)). r ≡ (
          handle_packet (record n { rx_buf = received p n.rx_buf }) >>= λ r. done (r.0, r.1, w')))
        (not n.registered) (λ e. absurd (ground arith))
        (λ e. rw (wait_for_event-Gives p n w w' g, not_null))
