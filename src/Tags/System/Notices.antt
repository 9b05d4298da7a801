-- ===== src/Tags/System/Notices.antt =====
-- src/nci/NfcNci.cpp: `handleEvent` with src/tags/NfcTags.cpp as the client, and the layers in step.
use arduino_nfc.Common.{refl, sym, subst, if_rule, not, ◌==◌, Option, none, some, arith}
use arduino_nfc.Common.Outcome.{done, ◌>>=◌, Returns, Returns-seq, Returns-self}
use arduino_nfc.Common.Buffer.Bounds.{AllBytes}
use arduino_nfc.Hw.{NfcHw}
use arduino_nfc.Nci.Types.{NfcNci, Notice}
use arduino_nfc.Nci.Events.{wait_for_event, handle_packet, report}
use arduino_nfc.Nci.Events as NciEvents
use arduino_nfc.Nci.Events.Frame.{handle_packet-SameBuffers}
use arduino_nfc.Nci.Events.Promises.{PromisesAll, handle_packet-Promises}
use arduino_nfc.Nci.Reach.{OnlyReads, wait_for_event-OnlyReads}
use arduino_nfc.Tags.Types.{NfcTags}
use arduino_nfc.Tags.Callbacks.{on_notice}
use arduino_nfc.Tags.Coupling.{InStep, Coupled, on_notice-InStep}
use arduino_nfc.Tags.System.Turns.{Holds}
use arduino_nfc.Tags.System.{deliver, nci_turn}

module _ (hw : NfcHw) where
  open hw use {World}

  -- What the NCI layer leaves: a state in step before the packet, and a call that keeps its promise.
  abbrev pub Told : NfcTags → Option Notice × NfcNci × World → Type 0
  Told t r = (m : NfcNci) × InStep t m × PromisesAll m (r.0, r.1) × AllBytes r.1.rx_buf

  abbrev Keeps : NfcNci → Option Notice × NfcNci → Type 0
  Keeps m x = PromisesAll m x × AllBytes x.1.rx_buf

  handle_packet-Keeps : (n : NfcNci) → AllBytes n.rx_buf → Returns (Keeps n) (handle_packet n)
  handle_packet-Keeps n b = Returns-self (Keeps n) (handle_packet n) (λ x e. (
    handle_packet-Promises n x (b 0) (b 1) e,
    λ i. rw ((handle_packet-SameBuffers n x.1 x.0 (b 0) (b 1) e).rx_buf) (b i),
  ))

  pub nci_handle_event-Told :
      (t : NfcTags) (n : NfcNci) (w : World)
      → InStep t n
      → AllBytes n.rx_buf
      → Returns (Told t) (NciEvents.handle_event hw n w)
  unfolding NciEvents.handle_event report
  nci_handle_event-Told t n w h b =
      if_rule (Returns (Told t)) (not n.registered) (λ e. (n, h, refl, b))
        (λ e. Returns-seq (OnlyReads hw n) (Told t) _ _ (wait_for_event-OnlyReads hw n w b) (λ r q.
          Returns-seq (Keeps r.1) (Told t) _ _
            (if_rule (Returns (Keeps r.1)) (r.0 == 0) (λ z. ((ground arith, refl, refl), q.0))
              (λ z. handle_packet-Keeps r.1 q.0))
            (λ x k. (r.1, subst (Coupled t.state) (sym q.1) h, k.0, k.1))))

  deliver-Holds :
      (c : Option Notice) (t : NfcTags) (m n : NfcNci) (w : World)
      → InStep t m
      → PromisesAll m (c, n)
      → AllBytes n.rx_buf
      → Returns (Holds hw) (deliver c t n >>= λ r. done (r.0, r.1, n, w))
  unfolding deliver
  deliver-Holds none t m n w h p b = (subst (Coupled t.state) (sym p) h, b)
  deliver-Holds (some c) t m n w h p b =
      Returns-seq (λ r. InStep r.1 n) (Holds hw) (on_notice c t n) _
        (Returns-self (λ r. InStep r.1 n) (on_notice c t n)
          (λ r e. on_notice-InStep c t m n r.0 r.1 p h e))
        (λ x k. (k, b))

  pub nci_turn-Holds :
      (t : NfcTags) (n : NfcNci) (w : World)
      → InStep t n
      → AllBytes n.rx_buf
      → Returns (Holds hw) (nci_turn hw t n w)
  unfolding nci_turn
  nci_turn-Holds t n w h b =
      Returns-seq (Told t) (Holds hw) _ _ (nci_handle_event-Told t n w h b)
        (λ r k. deliver-Holds r.0 t k.0 r.1 r.2 k.1 k.2 k.3)
