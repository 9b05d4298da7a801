-- ===== src/Sketch/Still.antt =====
-- examples/TagDetect/TagDetect.ino: what the sketch may rely on in each state.
use arduino_nfc.Common.{ℕ, ◌≡◌, ◌≢◌, if_rule, Option, none, some, arith}
use arduino_nfc.Common.Outcome.{Returns, Returns-map, Returns-bind}
use arduino_nfc.Nci.Types.{NfcNci}
use arduino_nfc.Tags.Types.{
  NfcTags, init_done, AppCall, AppCallback, Dump, cb_reset, cb_discover, cb_discover_ntf,
  cb_deactivate, cb_dump, tags_status_ok, tags_id_reset, tags_id_discover,
  tags_id_discover_activated, tags_id_deactivate,
}
use arduino_nfc.Tags.Stack.{is_tag}
use arduino_nfc.Tags.Interface.{get_type, intf_get_nfcid_len, intf_get_nfcid_buf}
use arduino_nfc.Tags.Busy.{Sound, IsError}
use arduino_nfc.Tags.Calm.{Calm}
use arduino_nfc.Tags.Told.{Means, MeansOf}
use arduino_nfc.Sketch.{tell}
use arduino_nfc.Sketch.Dump.{is_bad}
use arduino_nfc.Sketch.Detect.{
  DetectState, st_reset, st_reset_response, st_discover, st_discover_response, st_discovering,
  st_deactivate, st_deactivate_response, st_error, st_end, detect_sketch, detect_receive,
  detect_cb_reset, detect_cb_discover, detect_cb_discover_ntf, detect_cb_deactivate,
}

-- Nothing is ever dumped, and a discovery is commanded of an initialised stack.
abbrev pub Still : NfcTags → Type 0
Still t = Sound t × Calm t

abbrev pub Discovers : DetectState → NfcTags → Type 0
Discovers st_discover t = t.state ≡ init_done
Discovers s t = Unit

abbrev pub DetectReady : DetectState → NfcTags → Type 0
DetectReady a t = Still t × Discovers a t

-- The sketch is not about to command a discovery.
abbrev pub HoldsBack : DetectState → Type 0
HoldsBack st_discover = ⊥
HoldsBack s = Unit

pub HoldsBack-Discovers : (a : DetectState) (t : NfcTags) → HoldsBack a → Discovers a t
HoldsBack-Discovers st_discover t w = absurd w
HoldsBack-Discovers st_reset t w = tt
HoldsBack-Discovers st_reset_response t w = tt
HoldsBack-Discovers st_discover_response t w = tt
HoldsBack-Discovers st_discovering t w = tt
HoldsBack-Discovers st_deactivate t w = tt
HoldsBack-Discovers st_deactivate_response t w = tt
HoldsBack-Discovers st_error t w = tt
HoldsBack-Discovers st_end t w = tt

-- The notice of a tag leads to a deactivation.
detect_cb_discover_ntf-HoldsBack :
    (status id : ℕ) (t : NfcTags) (n : NfcNci)
    → Returns HoldsBack (detect_cb_discover_ntf status id t n)
unfolding detect_cb_discover_ntf
detect_cb_discover_ntf-HoldsBack status id t n =
    if_rule (Returns HoldsBack) (is_bad status id tags_id_discover_activated) (λ e. tt)
      (λ e.
        if_rule (Returns HoldsBack) (is_tag t.intf)
          (λ k. Returns-bind HoldsBack (get_type t.intf) _ (λ type f.
            Returns-bind HoldsBack (intf_get_nfcid_len t n) _
              (λ len g. Returns-bind HoldsBack (intf_get_nfcid_buf t n) _ (λ buf h. tt))))
          (λ k. tt))

error-HoldsBack :
    (cb : AppCallback) (status id : ℕ) (d : Option Dump) (a : DetectState) (t : NfcTags)
    (n : NfcNci)
    → status ≢ tags_status_ok
    → HoldsBack a
    → Returns HoldsBack
        (detect_receive (record { callback = cb; status = status; id = id; dump = d }) a t n)
unfolding detect_receive detect_cb_reset detect_cb_discover detect_cb_deactivate
error-HoldsBack cb_reset status id d a t n h w = ground arith
error-HoldsBack cb_discover status id d a t n h w = ground arith
error-HoldsBack cb_discover_ntf status id d a t n h w =
    detect_cb_discover_ntf-HoldsBack status id t n
error-HoldsBack cb_deactivate status id d a t n h w = ground arith
error-HoldsBack cb_dump status id d a t n h w = w

pub tell_error-HoldsBack :
    (c : Option AppCall) (a : DetectState) (t : NfcTags) (n : NfcNci)
    → IsError c
    → HoldsBack a
    → Returns HoldsBack (tell detect_sketch c a t n)
unfolding tell
tell_error-HoldsBack none a t n h w = w
tell_error-HoldsBack (some c) a t n h w = error-HoldsBack c.callback c.status c.id c.dump a t n h w

-- What a call means, without a dump under way.
pub Means-Sound : (c : Option AppCall) (t : NfcTags) → Means c t → Calm t → Sound t
Means-Sound none t m c = m
Means-Sound (some x) t m c = called x.callback x m
  where
    called : (cb : AppCallback) (x : AppCall) → MeansOf cb x t → Sound t
    called cb_reset x m = m.0
    called cb_discover x m = m.0
    called cb_discover_ntf x m = m.0
    called cb_deactivate x m = m
    called cb_dump x m = record {
      registered = m.registered;
      tag_registered = m.tag_registered;
      settled = m.settled;
      busy = λ d. absurd (c d);
    }

receive-Discovers :
    (cb : AppCallback) (status id : ℕ) (d : Option Dump) (a : DetectState) (t : NfcTags)
    (n : NfcNci)
    → MeansOf cb (record { callback = cb; status = status; id = id; dump = d }) t
    → HoldsBack a
    → Returns
        (λ s. Discovers s t)
        (detect_receive (record { callback = cb; status = status; id = id; dump = d }) a t n)
unfolding detect_receive detect_cb_reset detect_cb_discover detect_cb_deactivate
receive-Discovers cb_reset status id d a t n m w =
    if_rule (λ s. Discovers s t) (is_bad status id tags_id_reset) (λ e. tt)
      (λ e. m.1 (ground arith))
receive-Discovers cb_discover status id d a t n m w =
    if_rule (λ s. Discovers s t) (is_bad status id tags_id_discover) (λ e. tt) (λ e. tt)
receive-Discovers cb_discover_ntf status id d a t n m w =
    Returns-map HoldsBack (λ s. Discovers s t) _ (λ s v. HoldsBack-Discovers s t v)
      (detect_cb_discover_ntf-HoldsBack status id t n)
receive-Discovers cb_deactivate status id d a t n m w =
    if_rule (λ s. Discovers s t) (is_bad status id tags_id_deactivate) (λ e. tt) (λ e. tt)
receive-Discovers cb_dump status id d a t n m w = HoldsBack-Discovers a t w

pub tell-Discovers :
    (c : Option AppCall) (a : DetectState) (t : NfcTags) (n : NfcNci)
    → Means c t
    → HoldsBack a
    → Returns (λ s. Discovers s t) (tell detect_sketch c a t n)
unfolding tell
tell-Discovers none a t n m w = HoldsBack-Discovers a t w
tell-Discovers (some c) a t n m w = receive-Discovers c.callback c.status c.id c.dump a t n m w
