-- ===== src/Rorc/BarAccessor/Features.antt =====
-- getFirmwareFeatures() of BAR 0.
use flp_prototype.Base.{◌≡◌, Ensures, false, true, ◌∷◌, >>=-Ensures, ap, ◌==◌}
use flp_prototype.Rorc.Bar.{Card, Log, was_read, read_register}
use flp_prototype.Rorc.Bar.Steps.{answer, read_register-Ensures}
use flp_prototype.Rorc.BarAccessor.{
  get_firmware_features, convert_to_firmware_features, assert_bar_index,
}

pub get_firmware_features-Ensures :
    (card : Card) (log : Log)
    → card.index ≡ 0
    → Ensures
        (get_firmware_features card log)
        (λ f l.
          (card.refuses log (was_read 263) ≡ false)
          × ((f ≡ convert_to_firmware_features (answer card log 263)) × (l ≡ was_read 263 ∷ log)))
        (λ e l. card.refuses log (was_read 263) ≡ true)
unfolding get_firmware_features assert_bar_index
get_firmware_features-Ensures card log zero_bar = rw (ap (λ i. i == 0) zero_bar) (
    >>=-Ensures (read_register card 263) _ _ _ _ log (read_register-Ensures card 263 log)
      (λ v l h. (h.0, (ap convert_to_firmware_features h.1.0, h.1.1))))
