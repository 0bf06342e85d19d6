-- ===== src/Rorc/Cru/Tests.antt =====
-- The theorems of the CRU channel at a channel with two links.
use flp_prototype.Rorc.Sca.{offset}
use flp_prototype.Base.{
  ℕ, ◌≡◌, refl, arith, List, [], ◌∷◌, ◌++◌, true, false, none, some, length, Ensures,
}
use flp_prototype.Base.Buffer.{CircularBuffer}
use flp_prototype.Rorc.Superpage.{Superpage}
use flp_prototype.Rorc.Bar.{Card}
use flp_prototype.Rorc.BarAccessor.{FirmwareFeatures, incremental, dma_page_size}
use flp_prototype.Rorc.Pda.{SgEntry}
use flp_prototype.Rorc.Cru.{
  CruDmaChannel, Parameters, construct, device_start_dma, push_superpage, fill_superpages,
}
use flp_prototype.Rorc.Cru.Invariant.{IsCru}
use flp_prototype.Rorc.Cru.Body.{Fits}
use flp_prototype.Rorc.Cru.Start.{Opens, Starts, construct_lem}
use flp_prototype.Rorc.Dma.Opening.{Surroundings, BaseParameters, mutex_taken, acquired}
use flp_prototype.Rorc.Cru.Begin.{IsStarted, device_start_dma_lem}
use flp_prototype.Rorc.Cru.Push.{Pushes, push_superpage_lem}
use flp_prototype.Rorc.Cru.Fill.{
  Filled, FillFails, fill_superpages-Filled, Conserves, fill_superpages-Conserves,
}

abbrev appending : CircularBuffer Superpage
appending = record { push_back = λ c xs x. xs ++ x ∷ []; push_back_room = λ c xs x h. refl }

-- A card whose registers all read 1.
abbrev ones : Card
ones = record { index = 0; answers = λ log register. 1; refuses = λ log a. false }

abbrev features : FirmwareFeatures
features = record {
  standalone = false;
  serial = true;
  firmware_info = true;
  data_selection = true;
  temperature = true;
}

abbrev parameters : Parameters
parameters = record {
  dma_page_size_given = some dma_page_size;
  generator_enabled_given = none;
  generator_pattern_given = none;
  generator_random_size_enabled_given = none;
  generator_data_size_given = none;
  link_mask_given = some (0 ∷ 5 ∷ []);
}

-- Another process has left its named mutex, and the user allows to force the lock.
abbrev surroundings : Surroundings
surroundings = record {
  card_described = true;
  directories_made = true;
  first_attempt = mutex_taken;
  second_attempt = acquired;
  buffer_provided = true;
  device_opened = true;
  buffer_registered = true;
}

abbrev base_parameters : BaseParameters
base_parameters = record {
  channel_number_given = some 0;
  forced_unlock_given = some true;
  buffer_given = true;
}

construct_lem_example :
    Ensures
      (construct ones surroundings true true base_parameters parameters tt)
      (λ c u.
        Opens ones surroundings true true base_parameters
        × (Fits parameters × Starts ones parameters c))
      (λ e u. ¬ (Opens ones surroundings true true base_parameters × Fits parameters))
construct_lem_example =
    construct_lem ones surroundings true true base_parameters parameters refl
      (omega arith, (omega arith, tt))

abbrev page : ℕ → Superpage
page offset = record { offset = offset; size = 0x8000; user_data = 0; received = 0; ready = false }

-- Link 0 has a superpage in its queue.
abbrev two_links : CruDmaChannel
two_links = record {
  bar = [];
  bar_2 = [];
  features = features;
  links =
      record { id = 0; superpage_counter = 0; queue = page 0 ∷ [] }
      ∷ record { id = 5; superpage_counter = 1; queue = [] }
      ∷ [];
  link_queues_total_available = some 63;
  ready_queue = [];
  generator_enabled = true;
  generator_pattern = incremental;
  generator_data_size_random_enabled = false;
  generator_data_size = dma_page_size;
}

device_start_dma_lem_example :
    Ensures
      (device_start_dma ones ones two_links)
      (λ u d. IsStarted two_links d)
      (λ e d. d.links ≡ two_links.links)
device_start_dma_lem_example = device_start_dma_lem ones ones two_links (omega arith)

two_links-IsCru : IsCru two_links
two_links-IsCru = record {
  total = 63;
  total_lem = refl;
  places = refl;
  links_le = omega arith;
  within = (omega arith, (omega arith, tt));
  ready_le = omega arith;
}

abbrev entries : List SgEntry
entries = record { size = 0x10_0000; address_user = 0x5000; address_bus = 0x9_0000 } ∷ []

push_superpage_lem_example :
    Pushes entries two_links two_links-IsCru
      (page 0x8000)
      (push_superpage ones appending 0x10_0000 entries (page 0x8000) two_links)
push_superpage_lem_example =
    push_superpage_lem ones appending 0x10_0000 entries (page 0x8000) two_links two_links-IsCru
      (record { some_size = omega arith; units = refl; inside = omega arith; aligned = refl })
      (omega arith)

fill_superpages-Filled_example :
    Ensures
      (fill_superpages ones appending two_links)
      (λ u d. Filled ones two_links (length two_links.links) d)
      (λ e d. FillFails ones two_links e d)
fill_superpages-Filled_example = fill_superpages-Filled ones appending two_links two_links-IsCru

fill_superpages-Conserves_example :
    Ensures
      (fill_superpages ones appending two_links)
      (λ u d. Conserves two_links d)
      (λ e d. Conserves two_links d)
fill_superpages-Conserves_example =
    fill_superpages-Conserves ones appending two_links two_links-IsCru
