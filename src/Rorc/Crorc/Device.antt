-- ===== src/Rorc/Crorc/Device.antt =====
-- What CrorcDmaChannel sends to the card: reset, start and stop, and a page of the free FIFO.
use flp_prototype.Base.{
  ℕ, ◌+◌, ◌*◌, ◌/◌, ◌%◌, ◌^◌, Bool, true, false, not, ◌∷◌, done, throws, ◌>>◌, ◌>>=◌, if◌then◌else◌,
  length, pure,
}
use flp_prototype.Base.Int.{to_size}
use flp_prototype.Rorc.Error.{card_failed}
use flp_prototype.Rorc.Dma.{ResetLevel, nothing, internal, internal_diu, internal_diu_siu}
use flp_prototype.Rorc.Queue.{Entry}
use flp_prototype.Rorc.Crorc.State.{
  LoopbackMode, Command, Card, Config, DataArrivalStatus, none_mode, diu, siu, internal_mode,
  reset_ff, reset_rorc, reset_diu, reset_siu, init_diu_version, reset_command, arm_ddl,
  arm_data_generator, set_loopback_on, assert_link_up, siu_cifst, diu_cifst, stop_data_generator,
  stop_data_receiver, assert_free_fifo_empty, start_data_generator, start_data_receiver,
  set_siu_loopback, start_trigger, stop_trigger, push_rx_free_fifo, read_length, read_status, M,
  is_external, is_siu, arrival_of,
}

module _ (card : Card) (config : Config) where
  unfoldable pub call : Command → M ℕ
  call command c = elim (card.refuses c.commands command) [
    | true ↦ throws card_failed c
    | false ↦
        done (card.answers c.commands command % 2 ^ 32)
          (record c { commands = command ∷ c.commands })
  ]

  unfoldable pub send : Command → M (Unit {0})
  unfolding call
  send command = call command >>= λ _. pure tt

  -- A command that takes the DIU configuration.
  unfoldable pub send_with : (ℕ → Command) → M (Unit {0})
  unfolding send
  send_with f c = send (f c.diu_config) c

  unfoldable pub when : Bool → M (Unit {0}) → M (Unit {0})
  when b m c = elim b [ true ↦ m c | false ↦ done tt c ]

  unfoldable pub data_arrived : ℕ → M DataArrivalStatus
  unfolding call
  data_arrived index = do
    length ← call (read_length index)
    status ← call (read_status index)
    arrival_of status

  unfoldable pub clear_status : M (Unit {0})
  unfolding send
  clear_status = send assert_link_up >> send siu_cifst >> send diu_cifst

  unfoldable pub reset_link : Bool → M (Unit {0})
  unfolding send_with when
  reset_link with_siu =
      send_with (arm_ddl reset_diu)
      >> when with_siu (send_with (arm_ddl reset_siu) >> send_with (arm_ddl reset_diu))
      >> send_with (arm_ddl reset_rorc)

  unfoldable pub device_reset_channel : ResetLevel → M (Unit {0})
  unfolding send_with when reset_link
  device_reset_channel nothing = pure tt
  device_reset_channel internal =
      send_with (reset_command reset_ff)
      >> send_with (reset_command reset_rorc)
      >> when (is_external config.loopback_mode) (reset_link false)
  device_reset_channel internal_diu = when (is_external config.loopback_mode) (reset_link false)
  device_reset_channel internal_diu_siu =
      when (is_external config.loopback_mode) (reset_link (is_siu config.loopback_mode))

  unfoldable pub by_mode : M (Unit {0}) → M (Unit {0}) → M (Unit {0}) → LoopbackMode → M (Unit {0})
  by_mode at_none at_internal at_siu none_mode = at_none
  by_mode at_none at_internal at_siu diu = pure tt
  by_mode at_none at_internal at_siu siu = at_siu
  by_mode at_none at_internal at_siu internal_mode = at_internal

  unfoldable pub start_data_generator_run : M (Unit {0})
  unfolding send send_with by_mode clear_status
  start_data_generator_run =
      by_mode (send_with start_trigger) (pure tt) (pure tt) config.loopback_mode
      >> send (
          arm_data_generator config.generator_initial_value config.generator_initial_word
            config.generator_pattern config.generator_data_size config.generator_seed)
      >> by_mode (pure tt) (send set_loopback_on) (send_with set_siu_loopback >> clear_status)
          config.loopback_mode
      >> send (start_data_generator config.generator_maximum_events)

  unfoldable pub start_data_receiving : M (Unit {0})
  unfolding send send_with by_mode clear_status
  start_data_receiving =
      send init_diu_version
      >> by_mode (pure tt) (pure tt) (device_reset_channel internal_diu_siu >> clear_status)
          config.loopback_mode
      >> send_with (reset_command reset_ff)
      >> send assert_free_fifo_empty
      >> send (start_data_receiver config.ready_fifo_address_bus)

  unfoldable pub device_stop_dma : M (Unit {0})
  unfolding send send_with when
  device_stop_dma =
      if config.generator_enabled
      then (start_data_generator_run >> send stop_data_generator >> send stop_data_receiver)
      else when (not config.no_rdyrx) (send_with stop_trigger)

  -- A page goes to the free FIFO of the card; the word count is a size_t passed as a uint32_t.
  unfoldable pub push_free_fifo_page : ℕ → ℕ → M (Unit {0})
  unfolding send
  push_free_fifo_page index address =
      send (push_rx_free_fifo address (config.page_size / 4 % 2 ^ 32) index)

  unfoldable pub get_next_superpage_bus_address : Entry → ℕ
  get_next_superpage_bus_address entry =
      (entry.bus_address + config.page_size * to_size entry.pushed_pages) % 2 ^ 64
