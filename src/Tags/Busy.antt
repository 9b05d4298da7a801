-- ===== src/Tags/Busy.antt =====
-- src/tags/NfcTags.cpp: while the tag API is dumping, so is the tag's interface.
use arduino_nfc.Common.{
  ℕ, ◌≡◌, ◌≢◌, ◌∙◌, refl, sym, subst, if_rule, not, if◌then◌else◌, ◌==◌, leb, Bool, true, Option,
  none, some, [], ◌∷◌, arith,
}
use arduino_nfc.Common.Outcome.{Outcome, done, ◌>>=◌, Returns, Returns-bind, Returns-seq}
use arduino_nfc.Hw.{NfcHw}
use arduino_nfc.Nci.Types.{NfcNci, status_ok}
use arduino_nfc.Nci.Commands.{data_send}
use arduino_nfc.Tags.Types.{
  tags_status_rejected, tags_status_failed, NfcTags, AppCall, AppCallback, Type2, Type2State,
  t2_none, t2_dump, t2_dump_rsp, TagIntf, no_tag, to_tag2, to_mifare, dumping, deactivate_ntf,
  cb_dump, cb_reset, cb_discover, cb_deactivate, tags_id_reset, tags_id_discover,
  tags_id_deactivate, tags_id_dump, translate_nci_status, tags_status_ok,
}
use arduino_nfc.Tags.Type2
use arduino_nfc.Tags.Interface.{intf_handle_dump, mifare_handle_dump}
use arduino_nfc.Tags.Stack.{is_tag}
use arduino_nfc.Tags.Switches.{
  Switch, handle_reset-Switch, handle_discover-Switch, handle_deactivate-Switch,
}
use arduino_nfc.Tags.Handlers.{Turn, is_dumping, notify, sends, handle_dump, handle_event}

-- An application is registered, and a dump under way is one of the tag's interface too.
pub record Sound (t : NfcTags) : Type 0 where
  pub registered : t.registered ≡ true
  pub tag_registered : t.tag2.registered ≡ true
  pub settled : t.state ≢ deactivate_ntf
  pub busy : t.state ≡ dumping → t.tag2.state ≢ t2_none

-- A call of the application, if any, is that of an error.
abbrev pub IsError : Option AppCall → Type 0
IsError none = Unit
IsError (some c) = c.status ≢ tags_status_ok

module _ (hw : NfcHw) where
  open hw use {World}

  abbrev pub Stays : Option AppCall × NfcTags × NfcNci × World → Type 0
  Stays r = IsError r.0 × Sound r.1

  notify-Stays :
      (cb : AppCallback) (id status told : ℕ) (t : NfcTags) (n : NfcNci) (w : World)
      → (status ≢ status_ok → told ≢ tags_status_ok)
      → Sound t
      → Returns Stays (notify hw cb id status told t n w)
  unfolding notify
  notify-Stays cb id status told t n w k s =
      if_rule (Returns Stays) (not (status == status_ok))
        (λ e.
          if_rule (λ (r : Outcome (Option AppCall)). Returns Stays (r >>= λ c. done (c, t, n, w)))
            t.registered (λ r. (k (ground arith), s)) (λ r. tt))
        (λ e. (tt, s))

  translate_nci_status_ne_ok : (s : ℕ) → s ≢ status_ok → translate_nci_status s ≢ tags_status_ok
  unfolding translate_nci_status
  translate_nci_status_ne_ok s h = ground arith

  -- A handler that sends at most one command and tells of an error.
  Switch-Stays :
      (cb : AppCallback) (id : ℕ) (t : NfcTags) (n : NfcNci) (turn : Turn hw)
      → Switch hw cb id t n turn
      → Sound t
      → Returns Stays turn
  unfolding sends
  Switch-Stays cb id t n turn (r, o, c, e) s = subst (Returns Stays) (sym e) (
      Returns-bind Stays r _
        (λ x k. notify-Stays cb id x.0 _ t x.1 x.2 (translate_nci_status_ne_ok x.0) s))

  -- The tag's interface is busy after its handler, which ends no dump.
  abbrev IsBusy : Bool → ℕ × Type2 × NfcNci × World → Type 0
  IsBusy registered r = (r.1.registered ≡ registered) × (r.1.state ≢ t2_none)

  type2_handle_dump-IsBusy :
      (s : Type2State) (t2 : Type2) (n : NfcNci) (w : World)
      → t2.state ≡ s
      → Returns (IsBusy t2.registered) (Type2.handle_dump hw t2 n w)
  unfolding Type2.handle_dump
  type2_handle_dump-IsBusy t2_none t2 n w e = ground arith
  type2_handle_dump-IsBusy t2_dump t2 n w e = rw e (
      if_rule (Returns (IsBusy t2.registered)) (leb t2.block 12)
        (λ k.
          Returns-bind (IsBusy t2.registered) (data_send hw 0 (0x30 ∷ t2.block ∷ []) 2 n w) _
            (λ x o. (refl, λ h. ground arith)))
        (λ k. (refl, λ h. ground arith)))
  type2_handle_dump-IsBusy t2_dump_rsp t2 n w e = ground arith

  abbrev pub KeepsSound : ℕ × NfcTags × NfcNci × World → Type 0
  KeepsSound r = Sound r.1

  intf_handle_dump-KeepsSound :
      (i : TagIntf) (t : NfcTags) (n : NfcNci) (w : World)
      → t.intf ≡ i
      → Sound t
      → Returns KeepsSound (intf_handle_dump hw t n w)
  unfolding intf_handle_dump mifare_handle_dump
  intf_handle_dump-KeepsSound no_tag t n w e s = ground arith
  intf_handle_dump-KeepsSound to_tag2 t n w e s = rw e (
      Returns-seq (IsBusy t.tag2.registered) KeepsSound (Type2.handle_dump hw t.tag2 n w) _
        (type2_handle_dump-IsBusy t.tag2.state t.tag2 n w refl)
        (λ x k. record {
          registered = s.registered;
          tag_registered = k.0 ∙ s.tag_registered;
          settled = s.settled;
          busy = λ d. k.1;
        }))
  intf_handle_dump-KeepsSound to_mifare t n w e s = rw e (record {
    registered = s.registered;
    tag_registered = s.tag_registered;
    settled = s.settled;
    busy = s.busy;
  })

  -- The branches of `handleDump`, before the status is looked at.
  pub dump_rule-KeepsSound :
      (t : NfcTags) (n : NfcNci) (w : World)
      → Sound t
      → Returns KeepsSound (
          if not (is_dumping hw t.state)
          then done (tags_status_rejected, t, n, w)
          else if not (is_tag t.intf)
          then done (tags_status_failed, t, n, w)
          else intf_handle_dump hw t n w)
  dump_rule-KeepsSound t n w s =
      if_rule (Returns KeepsSound) (not (is_dumping hw t.state)) (λ e. s)
        (λ e.
          if_rule (Returns KeepsSound) (not (is_tag t.intf)) (λ k. s)
            (λ k. intf_handle_dump-KeepsSound t.intf t n w refl s))

  handle_dump-Stays :
      (t : NfcTags) (n : NfcNci) (w : World) → Sound t → Returns Stays (handle_dump hw t n w)
  unfolding handle_dump
  handle_dump-Stays t n w s =
      Returns-seq KeepsSound Stays _ _ (dump_rule-KeepsSound t n w s)
        (λ x k. notify-Stays cb_dump tags_id_dump x.0 x.0 x.1 x.2 x.3 (λ h. h) k)

  -- The object keeps its dump, and the application is told of nothing but errors.
  pub handle_event-Stays :
      (t : NfcTags) (n : NfcNci) (w : World) → Sound t → Returns Stays (handle_event hw t n w)
  unfolding handle_event
  handle_event-Stays t n w s =
      if_rule (Returns Stays) (t.id == tags_id_reset)
        (λ e.
          Switch-Stays cb_reset tags_id_reset t n _ (handle_reset-Switch hw t.state t n w refl) s)
        (λ e.
          if_rule (Returns Stays) (t.id == tags_id_discover)
            (λ e.
              Switch-Stays cb_discover tags_id_discover t n _
                (handle_discover-Switch hw t.state t n w refl) s)
            (λ e.
              if_rule (Returns Stays) (t.id == tags_id_deactivate)
                (λ e.
                  Switch-Stays cb_deactivate tags_id_deactivate t n _
                    (handle_deactivate-Switch hw t.state t n w refl s.settled) s)
                (λ e.
                  if_rule (Returns Stays) (t.id == tags_id_dump) (λ e. handle_dump-Stays t n w s)
                    (λ e. (tt, s)))))
