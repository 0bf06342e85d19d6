-- ===== src/Rorc/Cru/Start.antt =====
-- The constructor of CruDmaChannel.
use mathlib.Core.Path.{subst}
use flp_prototype.Base.{
  ◌≤◌, ◌≡◌, Bool, true, false, [], ◌∷◌, length, Outcome, done, throws, undefined, Ensures,
  Ensures-mono, >>=-Ensures, ◌>>◌,
}
use flp_prototype.Rorc.Error.{Error}
use flp_prototype.Rorc.Bar.{Card, Log, was_read}
use flp_prototype.Rorc.BarAccessor.{
  FirmwareFeatures, convert_to_firmware_features, get_firmware_features,
}
use flp_prototype.Rorc.Cru.{
  CruDmaChannel, Parameters, max_links, initial, construct, construct_body, built, with_features,
}
use flp_prototype.Rorc.Dma.Opening.{
  Surroundings, BaseParameters, get_value_or, call, construct_pda_base,
}
use flp_prototype.Rorc.Dma.Opening.Needs.{
  PdaBaseFits, Needs-then, throw_if-Needs, construct_pda_base-Needs,
}
use flp_prototype.Rorc.BarAccessor.Features.{get_firmware_features-Ensures}
use flp_prototype.Rorc.Bar.Steps.{answer}
use flp_prototype.Rorc.Cru.Body.{Fits, IsNew, IsRising, construct_body-Ensures}

-- The constructor of the base class does not throw, nor do the two BARs, nor the read of the
-- features.
abbrev pub Opens : Card → Surroundings → Bool → Bool → BaseParameters → Type 0
Opens card w opens_bar opens_bar_2 base =
    (PdaBaseFits (0 ∷ []) w base × ((opens_bar ≡ true) × (opens_bar_2 ≡ true)))
    × (card.refuses [] (was_read 263) ≡ false)

abbrev pub features_of : Card → FirmwareFeatures
features_of card = convert_to_firmware_features (answer card [] 263)

-- A new channel of a card, whose only access so far is that of its features.
abbrev pub Starts : Card → Parameters → CruDmaChannel → Type 0
Starts card p c = IsNew (was_read 263 ∷ []) (features_of card) p c × (length c.links ≤ max_links)

built-Ensures :
    (o : Outcome CruDmaChannel Error (Unit {0})) (P : CruDmaChannel → Type 0) (Q : Type 0)
    → Ensures o (λ u c. P c) (λ e c. Q)
    → Ensures (built o) (λ c u. P c) (λ e u. Q)
built-Ensures (done u c) P Q h = h
built-Ensures (throws e c) P Q h = h
built-Ensures undefined P Q h = h

with_features-Ensures :
    (card : Card) (p : Parameters) (o : Outcome Log Error FirmwareFeatures) (R : Type 0)
    → IsRising 0 (get_value_or p.link_mask_given (0 ∷ []))
    → Ensures o (λ f l. R × ((f ≡ features_of card) × (l ≡ was_read 263 ∷ []))) (λ e l. ¬ R)
    → Ensures (with_features o p) (λ c u. R × (Fits p × Starts card p c)) (λ e u. ¬ (R × Fits p))
with_features-Ensures card p (done f l) R rising h =
    built-Ensures (construct_body p (initial l f p)) (λ c. R × (Fits p × Starts card p c))
      (¬ (R × Fits p))
      (Ensures-mono (construct_body p (initial l f p)) _ _ _ _ (construct_body-Ensures l f p rising)
        (λ u c g. (
          h.0,
          (
            g.0,
            (
              subst (λ l. IsNew l (features_of card) p c) h.1.1
                  (subst (λ f. IsNew l f p c) h.1.0 g.1.0),
              g.1.1,
            ),
          ),
        ))
        (λ e c n k. n k.1))
with_features-Ensures card p (throws e l) R rising h = λ k. h k.0
with_features-Ensures card p undefined R rising h = h

-- The constructor, with what the operating system, the PDA library and the card answer as
-- parameters and a link mask that is read in rising order, returns exactly if the card is found, the
-- channel number is given and is 0, the directories are made, the lock is got at once or, by force,
-- after only the named mutex was taken, buffer parameters are given, the buffer, the device, its
-- registration and the two BARs open, the card lets the features be read, a page size that is given
-- is 8 KiB, the data generator is not switched off and every number of the link mask is below 24. The
-- channel then has the features that the card gave and one link for each number of the mask, with an
-- empty queue, at most 24 in all, and nothing else was asked of the card. Otherwise it throws.
pub construct_lem :
    (card : Card) (w : Surroundings) (opens_bar opens_bar_2 : Bool) (base : BaseParameters)
    (p : Parameters)
    → card.index ≡ 0
    → IsRising 0 (get_value_or p.link_mask_given (0 ∷ []))
    → Ensures
        (construct card w opens_bar opens_bar_2 base p tt)
        (λ c u. Opens card w opens_bar opens_bar_2 base × (Fits p × Starts card p c))
        (λ e u. ¬ (Opens card w opens_bar opens_bar_2 base × Fits p))
unfolding construct
construct_lem card w opens_bar opens_bar_2 base p zero_bar rising =
    >>=-Ensures opening _ (λ u t. (t ≡ tt) × Opened)
      (λ e t. ¬ (Opens card w opens_bar opens_bar_2 base × Fits p)) _ tt
      (Ensures-mono (opening tt) _ _ _ _
        (Needs-then _ _ _ _ (construct_pda_base-Needs (0 ∷ []) w base)
          (Needs-then _ _ _ _ (throw_if-Needs opens_bar _) (throw_if-Needs opens_bar_2 _)) tt)
        (λ u t h. h) (λ e t n k. n k.0.0))
      (λ u t h.
        Ensures-mono (with_features (get_firmware_features card []) p) _ _ _ _
          (with_features-Ensures card p (get_firmware_features card [])
            (card.refuses [] (was_read 263) ≡ false) rising features)
          (λ c v k. ((h.1, k.0), k.1)) (λ e v n k. n (k.0.1, k.1)))
  where
    Opened : Type 0
    Opened = PdaBaseFits (0 ∷ []) w base × ((opens_bar ≡ true) × (opens_bar_2 ≡ true))

    opening : Unit {0} → Outcome (Unit {0}) Error (Unit {0})
    opening = construct_pda_base (0 ∷ []) w base >> (call opens_bar >> call opens_bar_2)

    features :
        Ensures
          (get_firmware_features card [])
          (λ f l.
            (card.refuses [] (was_read 263) ≡ false)
            × ((f ≡ features_of card) × (l ≡ was_read 263 ∷ [])))
          (λ e l. ¬ (card.refuses [] (was_read 263) ≡ false))
    features =
        Ensures-mono (get_firmware_features card []) _ _ _ _
          (get_firmware_features-Ensures card [] zero_bar) (λ f l h. h) (λ e l refused k. cc)
