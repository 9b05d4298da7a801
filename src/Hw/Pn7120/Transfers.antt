-- ===== src/Hw/Pn7120/Transfers.antt =====
-- src/hw/NfcHw_pn7120.cpp under src/nci/NfcNci.cpp: packets that the driver fetches over a Wire library that
-- hands bytes on in their order.
use arduino_nfc.Common.{
  ℕ, zero, suc, ◌+◌, ◌%◌, ◌≤◌, ◌<◌, ◌≡◌, ap, true, false, List, [], ◌∷◌, length, IsBytes, max,
  arith,
}
use arduino_nfc.Common.Outcome.{done}
use arduino_nfc.Nci.Types.{NfcNci}
use arduino_nfc.Nci.Events.{wait_for_event}
use arduino_nfc.Nci.Events.Receiving.{
  Packet, IsPacket, Gives, payload, header, received, wait_for_event-Gives,
}
use arduino_nfc.Hw.Pn7120.{Board, wait, read_bytes, read, driver}

-- What the Wire library documents of the bytes that it has received: `available` counts them, and `read`
-- takes the first of them.
pub record Fifo (b : Board) : Type 0 where
  pub pending : b.State → List ℕ
  pub counts : (s : b.State) → b.available s ≡ (length (pending s), s)
  pub gives : (s : b.State) (x : ℕ) (xs : List ℕ) → pending s ≡ x ∷ xs → (b.read s).0 ≡ x
  pub takes : (s : b.State) (x : ℕ) (xs : List ℕ) → pending s ≡ x ∷ xs → pending (b.read s).1 ≡ xs

module _ (b : Board) (irq reset address : ℕ) (wire : Fifo b) where
  open b use {State}

  -- The state of the board once so many bytes have been read.
  abbrev drained : List ℕ → State → State
  drained [] s = s
  drained (x ∷ xs) s = drained xs (b.read s).1

  -- The interrupt line is low for some polls, each followed by a delay of 10, and high at the next, all
  -- within this number of polls; with the state of the board then.
  pub data Rises : ℕ → State → State → Type 0 where
    high : {polls : ℕ} {s up : State} → b.digital_read irq s ≡ (true, up) → Rises (suc polls) s up
    low :
        {polls : ℕ} {s t up : State}
        → b.digital_read irq s ≡ (false, t)
        → Rises polls (b.delay 10 t) up
        → Rises (suc polls) s up

  wait-Rises :
      (polls : ℕ) (s up : State) → Rises polls s up → wait b irq reset address polls s ≡ done up
  unfolding wait
  wait-Rises zero s up r = elim r [ ]
  wait-Rises (suc polls) s up (high e) = rw (wait, ap (λ r. r.0) e, ap (λ r. r.1) e)
  wait-Rises (suc polls) s up (low {t = t} e r) =
      rw (wait, ap (λ r. r.0) e, ap (λ r. r.1) e) (wait-Rises polls (b.delay 10 t) up r)

  -- The line is raised within a number of polls, and the library then receives exactly these bytes.
  pub record Transfer (polls : ℕ) (bytes : List ℕ) (s s' : State) : Type 0 where
    pub up : State
    pub raised : Rises polls s up
    pub received : wire.pending (b.request_from address (length bytes) up) ≡ bytes
    pub after : drained bytes (b.request_from address (length bytes) up) ≡ s'

  read_bytes-drained :
      (k : ℕ) (x : ℕ) (xs : List ℕ) (s : State)
      → wire.pending s ≡ x ∷ xs
      → IsBytes (x ∷ xs)
      → length (x ∷ xs) ≤ k
      → read_bytes b irq reset address k s ≡ done (x ∷ xs, drained (x ∷ xs) s)
  unfolding read_bytes
  read_bytes-drained zero x xs s e h l = absurd (omega arith)
  read_bytes-drained (suc k) x [] s e h l =
      let small : x % 256 ≡ x = omega (arith, h.0) in
      rw (
        read_bytes,
        ap (λ r. r.0) (wire.counts (b.read s).1),
        wire.takes s x [] e,
        ap (λ r. r.1) (wire.counts (b.read s).1),
        wire.gives s x [] e,
        small,
      )
  read_bytes-drained (suc k) x (y ∷ xs) s e h l =
      let small : x % 256 ≡ x = omega (arith, h.0) in
      rw (
        read_bytes,
        ap (λ r. r.0) (wire.counts (b.read s).1),
        wire.takes s x (y ∷ xs) e,
        ap (λ r. r.1) (wire.counts (b.read s).1),
        wire.gives s x (y ∷ xs) e,
        small,
        read_bytes-drained k y xs (b.read s).1 (wire.takes s x (y ∷ xs) e) h.1 (omega arith),
      )

  read-Transfer :
      (polls : ℕ) (x : ℕ) (xs : List ℕ) (s s' : State)
      → IsBytes (x ∷ xs)
      → length (x ∷ xs) < 256
      → Transfer polls (x ∷ xs) s s'
      → read b irq reset address polls (length (x ∷ xs)) s ≡ done (x ∷ xs, length (x ∷ xs), s')
  unfolding read
  read-Transfer polls x xs s s' h l t =
      let small : length (x ∷ xs) % 256 ≡ length (x ∷ xs) = omega (arith, l) in
      rw (
        wait-Rises polls s t.up t.raised,
        read_bytes-drained (max 1 (length (x ∷ xs))) x xs _ t.received h (omega arith),
        t.after,
        small,
      )

  -- The driver gives the packet to the NCI layer.
  pub driver-Gives :
      (polls : ℕ) (p : Packet) (s m s' : State)
      → IsPacket p
      → IsBytes (payload p)
      → Transfer polls (header p) s m
      → Transfer polls (payload p) m s'
      → Gives (driver b irq reset address polls) p s s'
  driver-Gives polls p s m s' v h t u = record {
    valid = v;
    mid = m;
    header_read =
        read-Transfer polls p.byte0 (p.byte1 ∷ length (payload p) ∷ []) s m
          (v.byte0, (v.byte1, (v.size, tt))) (omega arith) t;
    payload_read = read-Transfer polls p.first p.rest m s' h v.size u;
  }

  -- Over a Wire library that hands on bytes in their order: when the controller raises its interrupt line
  -- within the number of polls and offers the header of a packet, and then again and offers its payload,
  -- `waitForEvent` of the NCI layer over the driver returns with the length of the packet, and exactly
  -- this packet stands at the front of the receive buffer.
  pub wait_for_event-Transfer :
      (polls : ℕ) (p : Packet) (n : NfcNci) (s m s' : State)
      → IsPacket p
      → IsBytes (payload p)
      → Transfer polls (header p) s m
      → Transfer polls (payload p) m s'
      → wait_for_event (driver b irq reset address polls) n s
        ≡ done (length (payload p) + 3, record n { rx_buf = received p n.rx_buf }, s')
  wait_for_event-Transfer polls p n s m s' v h t u =
      wait_for_event-Gives (driver b irq reset address polls) p n s s'
        (driver-Gives polls p s m s' v h t u)
