-- ===== src/Sketch/Repeats.antt =====
-- examples: passes of the loop, one after the other, and the same again.
use arduino_nfc.Common.{ℕ, zero, suc, ◌+◌, ◌≡◌, refl, ◌∙◌, ap, arith}
use arduino_nfc.Common.Outcome.{Outcome, done, fault, hang, ◌>>=◌}
use arduino_nfc.Hw.{NfcHw}
use arduino_nfc.Nci.Types.{NfcNci, rfst_discovery}
use arduino_nfc.Tags.Types.{NfcTags, discover_ntf, tags_id_discover}
use arduino_nfc.Sketch.{Sketch, pass, passes}
use arduino_nfc.Sketch.Application.{Application}
use arduino_nfc.Sketch.Exchanges.{Stage}

>>=_through :
    {A B C : Type 0} (m : Outcome A) (f : A → Outcome C) (g : A → Outcome B) (h : B → Outcome C)
    → ((x : A) → f x ≡ (g x >>= h))
    → (m >>= f) ≡ ((m >>= g) >>= h)
>>=_through (done x) f g h e = e x
>>=_through fault f g h e = refl
>>=_through hang f g h e = refl

module _ (hw : NfcHw) (sk : Sketch) where
  open hw use {World}

  -- So many passes, and then so many more.
  pub passes_add :
      (j k : ℕ) (a : sk.State) (t : NfcTags) (n : NfcNci) (w : World)
      → passes sk hw (j + k) a t n w
        ≡ (passes sk hw j a t n w >>= λ r. passes sk hw k r.0 r.1 r.2 r.3)
  unfolding passes
  passes_add zero k a t n w = let e : 0 + k ≡ k = omega arith in ap (λ i. passes sk hw i a t n w) e
  passes_add (suc j) k a t n w =
      let e : suc j + k ≡ suc (j + k) = omega arith in
      ap (λ i. passes sk hw i a t n w) e
      ∙ >>=_through (pass sk hw a t n w) (λ r. passes sk hw (j + k) r.0 r.1 r.2 r.3)
          (λ r. passes sk hw j r.0 r.1 r.2 r.3) (λ r. passes sk hw k r.0 r.1 r.2 r.3)
          (λ r. passes_add j k r.0 r.1 r.2 r.3)

  module _ (app : Application sk) where
    -- So many passes return, and then the sketch and both layers look for tags.
    abbrev pub Looks : ℕ → sk.State → NfcTags → NfcNci → World → World → Type 0
    Looks k s t n w w' =
        (t' : NfcTags) × (n' : NfcNci) × Stage discover_ntf tags_id_discover rfst_discovery t' n'
        × (passes sk hw k s t n w ≡ done (app.discovering, t', n', w'))
