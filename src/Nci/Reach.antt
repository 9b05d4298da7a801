-- ===== src/Nci/Reach.antt =====
-- src/nci/NfcNci.cpp: the states that a client can reach, whatever the hardware answers.
use arduino_nfc.Common.{
  ℕ, ◌≡◌, ◌≢◌, refl, sym, subst, ◌∙◌, if_rule, not, ◌==◌, Option, none, some, List, [], ◌∷◌,
}
use arduino_nfc.Common.Outcome.{
  done, ◌>>=◌, Returns, Returns-bind, Returns-map, Returns-seq, Returns-self,
}
use arduino_nfc.Common.Buffer.{store_all}
use arduino_nfc.Common.Buffer.Bounds.{AllBytes, store_all-AllBytes}
use arduino_nfc.Hw.{NfcHw}
use arduino_nfc.Nci.Types.{
  NfcNci, NciState, state_none, rfst_reset, rfst_idle, rfst_discovery, rfst_poll_active,
  status_rejected, nci_packet_size,
}
use arduino_nfc.Nci.Commands.{cmd_core_reset}
use arduino_nfc.Nci.Events.{handle_event, handle_packet, wait_for_event, read_into, report}
use arduino_nfc.Nci.Events.Automaton.{Event, advance, event_of, handle_packet-advance}
use arduino_nfc.Nci.Events.Frame.{handle_packet-SameBuffers}
use arduino_nfc.Nci.Session.{
  Command, issue, issue-OnlySends, OnlySends, issue_rejected, perform, run, reset_with,
}

-- The transitions of the RF state machine that the code makes.
pub data Step : NciState → NciState → Type 0 where
  stay : (s : NciState) → Step s s
  reset_step : Step state_none rfst_reset
  init_step : Step rfst_reset rfst_idle
  discover_step : Step rfst_idle rfst_discovery
  activate_step : Step rfst_discovery rfst_poll_active
  deactivate_step : Step rfst_poll_active rfst_discovery

advance-Step : (s : NciState) (e : Event) → Step s (advance s e)
unfolding advance
advance-Step state_none Event.reset_done = reset_step
advance-Step rfst_reset Event.init_done = init_step
advance-Step rfst_idle Event.discover_started = discover_step
advance-Step rfst_discovery Event.activated = activate_step
advance-Step rfst_poll_active Event.deactivated = deactivate_step
advance-Step s e = stay _

-- The receive buffer holds bytes, and the state made one step.
pub record Sound (n n' : NfcNci) : Type 0 where
  pub bytes : AllBytes n'.rx_buf
  pub step : Step n.state n'.state

-- A sequence of steps.
pub data Trail : NciState → NciState → Type 0 where
  here : {s : NciState} → Trail s s
  next : {s t u : NciState} → Step s t → Trail t u → Trail s u

Step-ne_none : {s t : NciState} → Step s t → s ≢ state_none → t ≢ state_none
Step-ne_none (stay s) h e = h e
Step-ne_none reset_step h e = cc
Step-ne_none init_step h e = cc
Step-ne_none discover_step h e = cc
Step-ne_none activate_step h e = cc
Step-ne_none deactivate_step h e = cc

Trail-ne_none : {s t : NciState} → Trail s t → s ≢ state_none → t ≢ state_none
Trail-ne_none here h = h
Trail-ne_none (next st p) h = Trail-ne_none p (Step-ne_none st h)

from_same : (n m n' : NfcNci) → m.state ≡ n.state → Sound m n' → Sound n n'
from_same n m n' e s = record { bytes = s.bytes; step = rw (sym e) s.step }

module _ (hw : NfcHw) where
  open hw use {World}

  -- The receive buffer holds bytes, and nothing else has changed.
  abbrev pub OnlyReads : NfcNci → ℕ × NfcNci × World → Type 0
  OnlyReads n r = AllBytes r.1.rx_buf × (r.1.state ≡ n.state)

  read_into-OnlyReads :
      (i len : ℕ) (n : NfcNci) (w : World)
      → AllBytes n.rx_buf
      → Returns (OnlyReads n) (read_into hw i len n w)
  unfolding read_into
  read_into-OnlyReads i len n w h =
      Returns-bind (OnlyReads n) (hw.read len w)
        (λ r. store_all nci_packet_size n.rx_buf i r.0 >>= λ b.
          done (r.1, record n { rx_buf = b }, r.2))
        (λ r e.
          Returns-seq AllBytes (OnlyReads n) _ _
            (store_all-AllBytes nci_packet_size n.rx_buf i r.0 h) (λ b k. (k, refl)))

  pub wait_for_event-OnlyReads :
      (n : NfcNci) (w : World) → AllBytes n.rx_buf → Returns (OnlyReads n) (wait_for_event hw n w)
  unfolding wait_for_event
  wait_for_event-OnlyReads n w h =
      Returns-seq (OnlyReads n) (OnlyReads n) _ _ (read_into-OnlyReads 0 3 n w h) (λ r k.
        if_rule (Returns (OnlyReads n)) (r.0 == 0) (λ z. k)
          (λ z.
            Returns-seq (OnlyReads r.1) (OnlyReads n) _ _
              (read_into-OnlyReads 3 (r.1.rx_buf 2) r.1 r.2 k.0) (λ r' k'. (k'.0, k'.1 ∙ k.1))))

  pub handle_packet-Sound :
      (n : NfcNci) → AllBytes n.rx_buf → Returns (λ r. Sound n r.1) (handle_packet n)
  handle_packet-Sound n h =
      Returns-self (λ r. Sound n r.1) (handle_packet n)
        (λ r e. record {
          bytes = λ i. rw ((handle_packet-SameBuffers n r.1 r.0 (h 0) (h 1) e).rx_buf) (h i);
          step =
              rw (handle_packet-advance n r.0 r.1 (h 0) (h 1) e)
                (advance-Step n.state (event_of n.rx_buf));
        })

  handle_event-Sound :
      (n : NfcNci) (w : World)
      → AllBytes n.rx_buf
      → Returns (λ r. Sound n r.1) (handle_event hw n w)
  unfolding handle_event report
  handle_event-Sound n w h =
      if_rule (Returns (λ r. Sound n r.1)) (not n.registered)
        (λ k. record { bytes = h; step = stay n.state })
        (λ k.
          Returns-seq (OnlyReads n) (λ r. Sound n r.1) _ _ (wait_for_event-OnlyReads n w h)
            (λ r q.
              Returns-seq (λ x. Sound n x.1) (λ r. Sound n r.1) _ _
                (if_rule (Returns (λ x. Sound n x.1)) (r.0 == 0)
                  (λ z. from_same n r.1 r.1 q.1 (record { bytes = q.0; step = stay r.1.state }))
                  (λ z.
                    Returns-map (λ x. Sound r.1 x.1) (λ x. Sound n x.1) (handle_packet r.1)
                      (λ x s. from_same n r.1 x.1 q.1 s) (handle_packet-Sound r.1 q.0)))
                (λ x s. s)))

  perform-Sound :
      (c : Option Command) (n : NfcNci) (w : World)
      → AllBytes n.rx_buf
      → Returns (λ r. Sound n r.0) (perform hw c n w)
  unfolding perform
  perform-Sound none n w h =
      Returns-seq (λ r. Sound n r.1) (λ r. Sound n r.0) _ _ (handle_event-Sound n w h) (λ r s. s)
  perform-Sound (some c) n w h =
      Returns-seq (OnlySends hw n) (λ r. Sound n r.0) _ _ (issue-OnlySends hw c n w)
        (λ r e. rw e (record { bytes = h; step = stay n.state }))

  -- The receive buffer holds bytes, and a path of steps leads from one state to the other.
  abbrev Reaches : NfcNci → NfcNci × World → Type 0
  Reaches n r = AllBytes r.0.rx_buf × Trail n.state r.0.state

  run-Reaches :
      (cs : List (Option Command)) (n : NfcNci) (w : World)
      → AllBytes n.rx_buf
      → Returns (Reaches n) (run hw cs n w)
  unfolding run
  run-Reaches [] n w h = (h, here)
  run-Reaches (c ∷ cs) n w h =
      Returns-seq (λ r. Sound n r.0) (Reaches n) _ _ (perform-Sound c n w h)
        (λ r s.
          Returns-map (Reaches r.0) (Reaches n) (run hw cs r.0 r.1) (λ x p. (p.0, next s.step p.1))
            (run-Reaches cs r.0 r.1 s.bytes))

  -- Whatever the client calls and the hardware answers, in any order, if the calls return and the
  -- receive buffer held bytes before: the state has moved along the transitions NONE, RESET, IDLE,
  -- DISCOVERY, and between DISCOVERY and POLL_ACTIVE, and no others.
  pub run_path :
      (cs : List (Option Command)) (n n' : NfcNci) (w w' : World)
      → AllBytes n.rx_buf
      → run hw cs n w ≡ done (n', w')
      → Trail n.state n'.state
  run_path cs n n' w w' h e = (subst (Returns (Reaches n)) e (run-Reaches cs n w h)).1

  -- The reset command works until the first reset only: once an object has left the state NONE, with
  -- bytes in its receive buffer, it rejects the command after any further calls that return.
  pub reset_rejected :
      (cs : List (Option Command)) (type : ℕ) (n n' : NfcNci) (w w' : World)
      → AllBytes n.rx_buf
      → n.state ≢ state_none
      → run hw cs n w ≡ done (n', w')
      → cmd_core_reset hw type n' w' ≡ done (status_rejected, n', w')
  reset_rejected cs type n n' w w' h s e =
      unfold issue in
      issue_rejected hw (reset_with type) n' w' (Trail-ne_none (run_path cs n n' w w' h e) s)
