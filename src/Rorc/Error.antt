-- ===== src/Rorc/Error.antt =====
-- The exceptions that the modelled classes throw, one constructor for each message.
use flp_prototype.Base.{ℕ}

pub data Error : Type 0 where
  -- SuperpageQueue
  no_back_superpage no_front_superpage no_superpage_status queue_full : Error
  id_in_use : ℕ → Error
  pushing_empty not_completely_pushed arrivals_empty superpage_not_filled filled_empty : Error
  invalid_entry : ℕ → Error
  out_of_range : Error
  -- DmaChannelBase, DmaChannelPdaBase and Pda
  channel_not_supported no_buffer_parameters : Error
  no_channel_number named_mutex_taken lock_failed : Error
  -- a call of the operating system, of the PDA library or of a buffer provider that throws
  call_failed : Error
  reset_in_unknown_state reset_while_started : Error
  size_zero size_not_multiple_32k superpage_out_of_range offset_not_aligned : Error
  bus_address_out_of_range bar_offset_out_of_range : Error
  -- a BAR access that the card or the driver refuses
  bar_access_failed : Error
  -- DummyDmaChannel and CruDmaChannel
  transfer_queue_full ready_queue_empty link_queue_full too_many_available : Error
  page_size_not_8k generator_required : Error
  invalid_link : ℕ → Error
  -- CRU BarAccessor
  wrong_bar invalid_serial unsupported_pattern data_size_not_multiple_32 data_size_out_of_bounds :
      Error
  -- CrorcDmaChannel
  card_failed size_not_multiple_1m status_has_errors status_unrecognized : Error
  -- class Crorc
  link_not_up free_fifo_not_empty not_implemented invalid_event_length : Error
  ddl_command_timeout ddl_status_timeout data_fifos_timeout command_not_allowed : Error
  unexpected_diu_stw unexpected_siu_stw unexpected_stw siu_reset_failed siu_loopback_failed : Error
  bad_flash_status flash_stuck file_not_open interrupted serial_all_ones : Error
  -- Sca
  sca_busy_timeout generic_error_flag invalid_channel_request invalid_command_request : Error
  invalid_transaction_number invalid_length channel_not_enabled channel_busy : Error
