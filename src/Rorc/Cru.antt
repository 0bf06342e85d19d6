-- ===== src/Rorc/Cru.antt =====
-- RORC/src/Cru/CruDmaChannel.cxx: superpages wait in the queue of a link until the firmware counts
-- them, and then in the ready queue. Sleeps and log messages are left out.
pub mod Invariant
pub mod Accesses
pub mod Push
pub mod Body
pub mod Start
pub mod Begin
pub mod Arrive
pub mod Collect
pub mod Fill
mod Tests
use flp_prototype.Rorc.Sca.{offset}
use flp_prototype.Rorc.Queue.Ids.{ids}
use flp_prototype.Base.{
  ℕ, zero, suc, ◌+◌, ◌-◌, ◌*◌, ◌/◌, ◌%◌, ◌^◌, Bool, true, false, not, List, [], ◌∷◌, ◌++◌, map,
  ◌==◌, ltb, leb, Option, none, some, Outcome, done, throws, undefined, ◌>>◌, ◌>>=◌, throw_if,
  if◌then◌else◌, length, head?, tail, get_elem?, set, defined, gets, modify, pure,
}
use flp_prototype.Base.Int.{ℤ, to_int}
use flp_prototype.Base.Buffer.{CircularBuffer}
use flp_prototype.Rorc.Error.{
  Error, transfer_queue_full, ready_queue_empty, link_queue_full, too_many_available,
  page_size_not_8k, generator_required, invalid_link,
}
use flp_prototype.Rorc.Superpage.{Superpage}
use flp_prototype.Rorc.Dma.{ResetLevel, nothing, check_superpage}
use flp_prototype.Rorc.Dma.Opening.{
  Surroundings, BaseParameters, get_value_or, call, construct_pda_base,
}
use flp_prototype.Rorc.Pda.{SgEntry, get_bus_offset_address}
use flp_prototype.Rorc.Bar
use flp_prototype.Rorc.Bar.{Card, Log, write_register}
use flp_prototype.Rorc.BarAccessor.{
  GeneratorPattern, incremental, FirmwareFeatures, dma_page_size, push_superpage_descriptor,
  get_superpage_count, set_data_emulator_enabled, reset_data_generator_counter, reset_card,
  set_data_generator_pattern, data_generator_inject_error, get_serial_number, get_firmware_features,
}

abbrev pub max_links : ℕ
max_links = 24

abbrev pub link_queue_capacity : ℕ
link_queue_capacity = 32

abbrev pub ready_queue_capacity : ℕ
ready_queue_capacity = 32

pub record Link : Type 0 where
  pub id : ℕ
  pub superpage_counter : ℕ
  pub queue : List Superpage

-- The available places have no value until deviceStartDma() gives them one.
pub record CruDmaChannel : Type 0 where
  pub bar : Log
  pub bar_2 : Log
  pub features : FirmwareFeatures
  pub links : List Link
  pub link_queues_total_available : Option ℕ
  pub ready_queue : List Superpage
  pub generator_enabled : Bool
  pub generator_pattern : GeneratorPattern
  pub generator_data_size_random_enabled : Bool
  pub generator_data_size : ℕ

abbrev pub M : Type 0 → Type 0
M A = CruDmaChannel → Outcome CruDmaChannel Error A

-- A member function of the accessor of BAR 0, and of BAR 2.
abbrev pub on_bar : {A : Type 0} → Bar.M A → M A
on_bar m c = elim (m c.bar) [
  | done a log ↦ done a (record c { bar = log })
  | throws e log ↦ throws e (record c { bar = log })
  | undefined ↦ undefined
]

abbrev pub on_bar_2 : {A : Type 0} → Bar.M A → M A
on_bar_2 m c = elim (m c.bar_2) [
  | done a log ↦ done a (record c { bar_2 = log })
  | throws e log ↦ throws e (record c { bar_2 = log })
  | undefined ↦ undefined
]

-- The parameters that the constructor reads, each of which may be absent.
pub record Parameters : Type 0 where
  pub dma_page_size_given : Option ℕ
  pub generator_enabled_given : Option Bool
  pub generator_pattern_given : Option GeneratorPattern
  pub generator_random_size_enabled_given : Option Bool
  pub generator_data_size_given : Option ℕ
  pub link_mask_given : Option (List ℕ)

-- The loop over the link mask, a set of uint32_t.
pub insert_links : List ℕ → M (Unit {0})
insert_links [] c = done tt c
insert_links (id ∷ ids) c = elim (leb max_links id) [
  | true ↦ throws (invalid_link id) c
  | false ↦
      insert_links ids
        (record c { links = c.links ++ record { id = id; superpage_counter = 0; queue = [] } ∷ [] })
]

pub check_page_size : Option ℕ → M (Unit {0})
check_page_size none = pure tt
check_page_size (some size) = throw_if (not (size == dma_page_size)) page_size_not_8k

pub check_generator : Option Bool → M (Unit {0})
check_generator none = pure tt
check_generator (some enabled) = throw_if (not enabled) generator_required

abbrev initial : Log → FirmwareFeatures → Parameters → CruDmaChannel
initial log features p = record {
  bar = log;
  bar_2 = [];
  features = features;
  links = [];
  link_queues_total_available = none;
  ready_queue = [];
  generator_enabled = get_value_or p.generator_enabled_given true;
  generator_pattern = get_value_or p.generator_pattern_given incremental;
  generator_data_size_random_enabled = get_value_or p.generator_random_size_enabled_given false;
  generator_data_size = get_value_or p.generator_data_size_given dma_page_size;
}

-- The constructor's body, in the members that its initialisers left.
pub construct_body : Parameters → M (Unit {0})
unfolding check_page_size check_generator insert_links
construct_body p =
    check_page_size p.dma_page_size_given
    >> (check_generator p.generator_enabled_given
        >> insert_links (get_value_or p.link_mask_given (0 ∷ [])))

-- allowedChannels()
abbrev allowed_channels : List ℕ
allowed_channels = 0 ∷ []

-- An exception leaves no object.
abbrev built : Outcome CruDmaChannel Error (Unit {0}) → Outcome (Unit {0}) Error CruDmaChannel
built (done u c) = done c tt
built (throws e c) = throws e tt
built undefined = undefined

-- The features of the firmware, which are read from BAR 0, and what the body does with them.
abbrev with_features :
    Outcome Log Error FirmwareFeatures → Parameters → Outcome (Unit {0}) Error CruDmaChannel
with_features (done features log) p = built (construct_body p (initial log features p))
with_features (throws e log) p = throws e tt
with_features undefined p = undefined

-- The constructor: the base classes, the two BARs, each of which opens or throws, then the features
-- that BAR 0, the card here, gives, and the body.
unfoldable pub construct :
    Card
    → Surroundings
    → Bool
    → Bool
    → BaseParameters
    → Parameters
    → Unit {0}
    → Outcome (Unit {0}) Error CruDmaChannel
unfolding construct_body
construct card w opens_bar opens_bar_2 base p =
    (construct_pda_base allowed_channels w base >> (call opens_bar >> call opens_bar_2))
    >> (λ u. with_features (get_firmware_features card []) p)

-- getNextLinkIndex(): `index` and `size` are the smallest so far, and an index is a uint8_t.
pub next_link_from : List Link → ℕ → ℕ → ℕ → ℕ
next_link_from [] i index size = index
next_link_from (link ∷ links) i index size =
    next_link_from links (i + 1) (if ltb (length link.queue) size then i % 2 ^ 8 else index)
      (if ltb (length link.queue) size then length link.queue else size)

unfoldable pub get_next_link_index : List Link → ℕ
unfolding next_link_from
get_next_link_index links = next_link_from links 0 (2 ^ 8 - 1) (2 ^ 64 - 1)

module _ (card card_2 : Card) where
  pub reset_cru : M (Unit {0})
  reset_cru = on_bar (reset_data_generator_counter card) >> on_bar (reset_card card)

  pub init_cru : M (Unit {0})
  init_cru c =
      if c.generator_enabled
      then on_bar
          (set_data_generator_pattern card c.generator_pattern c.generator_data_size
            c.generator_data_size_random_enabled)
          c
      else done tt c

  pub select_data : M (Unit {0})
  select_data c =
      if c.features.data_selection
      then on_bar_2 (write_register card_2 (0x800_0020 / 4) 1) c
      else done tt c

  abbrev cleared : CruDmaChannel → CruDmaChannel
  cleared c = record c {
    links = map (λ (l : Link). record l { queue = []; superpage_counter = 0 }) c.links;
    ready_queue = [];
    link_queues_total_available = some (link_queue_capacity * length c.links);
  }

  unfoldable pub device_start_dma : M (Unit {0})
  unfolding reset_cru init_cru select_data
  device_start_dma =
      reset_cru
      >> init_cru
      >> on_bar (set_data_emulator_enabled card true)
      >> select_data
      >> modify cleared

  unfoldable pub device_stop_dma : M (Unit {0})
  device_stop_dma = on_bar (set_data_emulator_enabled card false)

  unfoldable pub device_reset_channel : ResetLevel → M (Unit {0})
  unfolding reset_cru
  device_reset_channel nothing = pure tt
  device_reset_channel level = reset_cru

  unfoldable pub inject_error : M Bool
  inject_error c =
      if c.generator_enabled
      then (on_bar (data_generator_inject_error card) >> pure true) c
      else done false c

  -- The number is read as a uint32_t and given as an int32_t.
  unfoldable pub get_serial : M (Option ℤ)
  get_serial c =
      if c.features.serial
      then (on_bar_2 (get_serial_number card_2) >>= λ n. pure (some (to_int n))) c
      else done none c

unfoldable pub get_superpage : M Superpage
get_superpage = do
  throw_if (← gets (λ (c : CruDmaChannel). length c.ready_queue == 0)) ready_queue_empty
  λ (c : CruDmaChannel). defined (head? c.ready_queue) c

unfoldable pub pop_superpage : M Superpage
pop_superpage = do
  throw_if (← gets (λ (c : CruDmaChannel). length c.ready_queue == 0)) ready_queue_empty
  p ← (λ (c : CruDmaChannel). defined (head? c.ready_queue) c)
  modify (λ (c : CruDmaChannel). record c { ready_queue = tail c.ready_queue })
  pure p

-- Reading the number of places before deviceStartDma() is undefined.
unfoldable pub get_transfer_queue_available : M ℕ
get_transfer_queue_available c = defined c.link_queues_total_available c

unfoldable pub get_ready_queue_size : CruDmaChannel → ℕ
get_ready_queue_size c = length c.ready_queue

-- mLinks[index], and an assignment to it
pub link_at : ℕ → M Link
link_at index c = defined (get_elem? c.links index) c

pub put_link : ℕ → Link → M (Unit {0})
put_link index link = modify (λ (c : CruDmaChannel). record c { links = set c.links index link })

abbrev pub arrive : Superpage → Superpage
arrive p = record p { ready = true; received = p.size }

module _ (card : Card) (buffer : CircularBuffer Superpage) where
  -- what pushSuperpage() does once there is a place in some link's queue
  pub push_to_link : List SgEntry → Superpage → ℕ → ℕ → M (Unit {0})
  unfolding link_at put_link
  push_to_link sgl p total index = do
    link ← link_at index
    throw_if (leb link_queue_capacity (length link.queue)) link_queue_full
    modify (λ (c : CruDmaChannel). record c { link_queues_total_available = some (total - 1) })
    put_link index (record link { queue = buffer.push_back link_queue_capacity link.queue p })
    bus_address ← get_bus_offset_address sgl p.offset
    on_bar (push_superpage_descriptor card link.id (p.size / dma_page_size) bus_address)

  unfoldable pub push_superpage : ℕ → List SgEntry → Superpage → M (Unit {0})
  unfolding push_to_link get_next_link_index
  push_superpage buffer_size sgl p = do
    check_superpage buffer_size p
    total ← (λ (c : CruDmaChannel). defined c.link_queues_total_available c)
    throw_if (total == 0) transfer_queue_full
    index ← gets (λ (c : CruDmaChannel). get_next_link_index c.links)
    push_to_link sgl p total index

module _ (buffer : CircularBuffer Superpage) where
  -- one round of the inner loop of fillSuperpages(): the front superpage of a link has arrived
  pub arrive_front : ℕ → M (Unit {0})
  unfolding link_at put_link
  arrive_front index = do
    link ← link_at index
    p ← (λ (c : CruDmaChannel). defined (head? link.queue) c)
    modify (λ (c : CruDmaChannel). record c {
      ready_queue = buffer.push_back ready_queue_capacity c.ready_queue (arrive p);
    })
    total ← (λ (c : CruDmaChannel). defined c.link_queues_total_available c)
    modify (λ (c : CruDmaChannel). record c {
      link_queues_total_available = some ((total + 1) % 2 ^ 64);
    })
    put_link index (record link {
      queue = tail link.queue;
      superpage_counter = (link.superpage_counter + 1) % 2 ^ 32;
    })

  pub arrive_loop : ℕ → ℕ → M (Unit {0})
  unfolding arrive_front
  arrive_loop index zero c = done tt c
  arrive_loop index (suc n) c = elim (leb ready_queue_capacity (length c.ready_queue)) [
    | true ↦ done tt c
    | false ↦ (arrive_front index >> arrive_loop index n) c
  ]

  -- one round of the outer loop, for a link whose firmware counter reads `count`
  pub collect : ℕ → Link → ℕ → M (Unit {0})
  unfolding arrive_loop
  collect index link count =
      if ltb link.superpage_counter count
      then throw_if (ltb (length link.queue) (count - link.superpage_counter)) too_many_available
        >> arrive_loop index (count - link.superpage_counter)
      else pure tt

module _ (card : Card) (buffer : CircularBuffer Superpage) where
  pub fill_link : ℕ → M (Unit {0})
  unfolding collect link_at
  fill_link index = do
    link ← link_at index
    count ← on_bar (get_superpage_count card link.id)
    collect buffer index link count

  pub fill_loop : ℕ → ℕ → M (Unit {0})
  unfolding fill_link
  fill_loop zero index = pure tt
  fill_loop (suc n) index = fill_link index >> fill_loop n (index + 1)

  unfoldable pub fill_superpages : M (Unit {0})
  unfolding fill_loop
  fill_superpages c = fill_loop (length c.links) 0 c
