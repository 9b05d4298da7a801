-- ===== src/Tags/System/Calls.antt =====
-- src/nci/NfcNci.cpp with src/tags/NfcTags.cpp as the client: what a call of the application means.
use arduino_nfc.Common.{◌≡◌, subst, Option, none, some}
use arduino_nfc.Common.Outcome.{Returns, Returns-seq}
use arduino_nfc.Common.Buffer.Bounds.{AllBytes}
use arduino_nfc.Hw.{NfcHw}
use arduino_nfc.Nci.Types.{NfcNci, Notice, cb_data, status_ok}
use arduino_nfc.Nci.Events.Promises.{Promises, PromisesOf, PromisesAll}
use arduino_nfc.Tags.Types.{NfcTags, AppCall}
use arduino_nfc.Tags.Busy.{Sound}
use arduino_nfc.Tags.Told.{Means}
use arduino_nfc.Tags.Meaning.{on_notice-Means}
use arduino_nfc.Tags.Coupling.{InStep}
use arduino_nfc.Tags.System.{deliver, nci_turn}
use arduino_nfc.Tags.System.Notices.{nci_handle_event-Told, Told}

-- Data always come with the status OK.
data_ok : (m n : NfcNci) (c : Notice) → Promises m c n → c.callback ≡ cb_data → c.status ≡ status_ok
data_ok m n c p h = (subst (λ cb. PromisesOf cb m c n) h p).0

deliver-Means :
    (c : Option Notice) (t : NfcTags) (m n : NfcNci)
    → Sound t
    → PromisesAll m (c, n)
    → Returns (λ r. Means r.0 r.1) (deliver c t n)
unfolding deliver
deliver-Means none t m n s p = s
deliver-Means (some c) t m n s p = on_notice-Means c t n (λ e. data_ok m n c p e) s

module _ (hw : NfcHw) where
  open hw use {World}

  -- With an application registered and no ended dump, the layers in step and bytes in the receive buffer,
  -- a turn of the NCI layer that returns makes calls that mean what they say.
  pub nci_turn-Means :
      (t : NfcTags) (n : NfcNci) (w : World)
      → Sound t
      → InStep t n
      → AllBytes n.rx_buf
      → Returns (λ r. Means r.0 r.1) (nci_turn hw t n w)
  unfolding nci_turn
  nci_turn-Means t n w s h b =
      Returns-seq (Told hw t) (λ r. Means r.0 r.1) _ _ (nci_handle_event-Told hw t n w h b)
        (λ r k.
          Returns-seq (λ (x : Option AppCall × NfcTags). Means x.0 x.1)
            (λ (x : Option AppCall × NfcTags × NfcNci × World). Means x.0 x.1) _ _
            (deliver-Means r.0 t k.0 r.1 s k.2) (λ x m. m))
