-- ===== src/Rorc/BarAccessor.antt =====
-- RORC/src/Cru/BarAccessor.h, with the registers of RORC/src/Cru/Constants.h.
pub mod Features
pub mod Generator
mod Tests
use Prim.Native.Nat.{bit_and}
use flp_prototype.Base.{
  ℕ, ◌+◌, ◌-◌, ◌*◌, ◌/◌, ◌%◌, ◌^◌, Bool, true, false, not, ◌||◌, ltb, ◌==◌, if◌then◌else◌, throws,
  ◌>>=◌, ◌>>◌, pure, throw_if,
}
use flp_prototype.Rorc.Error.{
  wrong_bar, invalid_serial, unsupported_pattern, data_size_not_multiple_32,
  data_size_out_of_bounds,
}
use flp_prototype.Rorc.Superpage.{is_multiple}
use flp_prototype.Rorc.Bits.{get_lower_32_bits, get_upper_32_bits, get_bit, set_bit, get_bits}
use flp_prototype.Rorc.Bar.{Card, M, read_register, write_register}

-- the registers, as 32-bit indices
abbrev pub dma_control : ℕ
dma_control = 0x200 / 4

abbrev pub link_base_superpage_address_high : ℕ
link_base_superpage_address_high = 0x204 / 4

abbrev pub link_base_superpage_address_low : ℕ
link_base_superpage_address_low = 0x208 / 4

abbrev pub link_base_superpage_size : ℕ
link_base_superpage_size = 0x20c / 4

abbrev pub link_base_superpages_pushed : ℕ
link_base_superpages_pushed = 0x210 / 4

abbrev pub link_superpage_offset : ℕ
link_superpage_offset = 0x10 / 4

abbrev pub data_generator_control : ℕ
data_generator_control = 0x420 / 4

abbrev pub reset_control : ℕ
reset_control = 0x400 / 4

abbrev pub dma_page_size : ℕ
dma_page_size = 8 * 1024

-- GeneratorPattern::type
pub data GeneratorPattern : Type 0 where
  unknown_pattern constant alternating flying_0 flying_1 incremental decremental random_pattern :
      GeneratorPattern

pub record FirmwareFeatures : Type 0 where
  pub standalone : Bool
  pub serial : Bool
  pub firmware_info : Bool
  pub data_selection : Bool
  pub temperature : Bool

unfoldable pub convert_to_firmware_features : ℕ → FirmwareFeatures
unfolding get_bits get_bit
convert_to_firmware_features reg =
    let enabled = λ (i : ℕ). get_bit reg i == 0 in
    if get_bits reg 0 15 == 0x5afe
    then record {
      standalone = true;
      serial = enabled 18;
      firmware_info = enabled 19;
      data_selection = enabled 16;
      temperature = enabled 17;
    }
    else record {
      standalone = false;
      serial = true;
      firmware_info = true;
      data_selection = true;
      temperature = true;
    }

unfoldable pub set_data_generator_pattern_bits : ℕ → GeneratorPattern → M ℕ
set_data_generator_pattern_bits bits incremental = pure (set_bit (set_bit bits 1 true) 2 false)
set_data_generator_pattern_bits bits alternating = pure (set_bit (set_bit bits 1 false) 2 true)
set_data_generator_pattern_bits bits constant = pure (set_bit (set_bit bits 1 true) 2 true)
set_data_generator_pattern_bits bits other = throws unsupported_pattern

-- `bits &= ~0xff00; bits += ((size / 32) - 1) << 8`, in 32 bits
unfoldable pub set_data_generator_size_bits : ℕ → ℕ → M ℕ
unfolding is_multiple
set_data_generator_size_bits bits size = do
  throw_if (not (is_multiple size 32)) data_size_not_multiple_32
  throw_if (ltb size 32 || ltb dma_page_size size) data_size_out_of_bounds
  pure ((bit_and bits (0xffff_ffff - 0xff00) + (size / 32 - 1) * 2 ^ 8) % 2 ^ 32)

unfoldable pub set_data_generator_enable_bits : ℕ → Bool → ℕ
set_data_generator_enable_bits bits enabled = set_bit bits 0 enabled

unfoldable pub set_data_generator_random_size_bits : ℕ → Bool → ℕ
set_data_generator_random_size_bits bits enabled = set_bit bits 16 enabled

module _ (card : Card) where
  unfoldable pub push_superpage_descriptor : ℕ → ℕ → ℕ → M (Unit {0})
  push_superpage_descriptor link pages bus_address = do
    let offset = link_superpage_offset * link
    write_register card (offset + link_base_superpage_address_high) (get_upper_32_bits bus_address)
    write_register card (offset + link_base_superpage_address_low) (get_lower_32_bits bus_address)
    write_register card (offset + link_base_superpage_size) pages

  unfoldable pub get_superpage_count : ℕ → M ℕ
  get_superpage_count link =
      read_register card (link_superpage_offset * link + link_base_superpages_pushed)

  unfoldable pub set_data_emulator_enabled : Bool → M (Unit {0})
  set_data_emulator_enabled enabled = do
    write_register card dma_control (if enabled then 1 else 0)
    bits ← read_register card data_generator_control
    write_register card data_generator_control (set_data_generator_enable_bits bits enabled)

  unfoldable pub reset_data_generator_counter : M (Unit {0})
  reset_data_generator_counter = write_register card reset_control 2

  unfoldable pub reset_card : M (Unit {0})
  reset_card = write_register card reset_control 1

  unfoldable pub set_data_generator_pattern : GeneratorPattern → ℕ → Bool → M (Unit {0})
  set_data_generator_pattern pattern size random_enabled = do
    bits ← read_register card data_generator_control
    patterned ← set_data_generator_pattern_bits bits pattern
    sized ← set_data_generator_size_bits patterned size
    write_register card data_generator_control
        (set_data_generator_random_size_bits sized random_enabled)

  unfoldable pub data_generator_inject_error : M (Unit {0})
  data_generator_inject_error = write_register card data_generator_control 0x8

  assert_bar_index : ℕ → M (Unit {0})
  assert_bar_index index = throw_if (not (card.index == index)) wrong_bar

  unfoldable pub get_serial_number : M ℕ
  unfolding assert_bar_index
  get_serial_number = do
    assert_bar_index 2
    serial ← read_register card 524299
    throw_if (serial == 0xffff_ffff) invalid_serial
    pure serial

  unfoldable pub get_temperature_raw : M ℕ
  unfolding assert_bar_index
  get_temperature_raw = do
    assert_bar_index 2
    value ← read_register card 524298
    pure (bit_and value 0x3ff)

  unfoldable pub get_firmware_compile_info : M ℕ
  unfolding assert_bar_index
  get_firmware_compile_info = assert_bar_index 0 >> read_register card 160

  unfoldable pub get_firmware_git_hash : M ℕ
  unfolding assert_bar_index
  get_firmware_git_hash = assert_bar_index 2 >> read_register card 1

  unfoldable pub get_firmware_date_epoch : M ℕ
  unfolding assert_bar_index
  get_firmware_date_epoch = assert_bar_index 2 >> read_register card 7

  unfoldable pub get_firmware_date : M ℕ
  unfolding assert_bar_index
  get_firmware_date = assert_bar_index 2 >> read_register card 8

  unfoldable pub get_firmware_time : M ℕ
  unfolding assert_bar_index
  get_firmware_time = assert_bar_index 2 >> read_register card 9

  unfoldable pub get_firmware_features : M FirmwareFeatures
  unfolding assert_bar_index
  get_firmware_features = do
    assert_bar_index 0
    pure (convert_to_firmware_features (← read_register card (0x41c / 4)))
