-- ===== src/Rorc/Cru/Begin.antt =====
-- CruDmaChannel::deviceStartDma().
use flp_prototype.Base.{
  ℕ, ◌*◌, ◌/◌, ◌≤◌, ◌≡◌, refl, ◌∙◌, ap, arith, Bool, true, List, [], ◌∷◌, some, length, length-map,
  map, done, throws, undefined, Ensures, Ensures-mono, >>=-Ensures, ◌>>◌, modify,
}
use flp_prototype.Rorc.Bar
use flp_prototype.Rorc.Bar.{Card, Log, read_register, write_register}
use flp_prototype.Rorc.BarAccessor.{
  reset_card, reset_data_generator_counter, set_data_generator_pattern,
  set_data_generator_pattern_bits, set_data_generator_size_bits, set_data_emulator_enabled,
  GeneratorPattern,
}
use flp_prototype.Rorc.Cru.{
  CruDmaChannel, Link, M, max_links, link_queue_capacity, on_bar, on_bar_2, reset_cru, init_cru,
  select_data, cleared, device_start_dma,
}
use flp_prototype.Rorc.Cru.Invariant.{IsCru, queued, AllWithin}

-- It returns or throws.
abbrev Answers : {A : Type 0} → Bar.M A → Type 0
Answers m = (log : Log) → Ensures (m log) (λ a l. Unit {0}) (λ e l. Unit {0})

-- The links stay.
abbrev KeepsLinks : M (Unit {0}) → Type 0
KeepsLinks m =
    (c : CruDmaChannel) → Ensures (m c) (λ u d. d.links ≡ c.links) (λ e d. d.links ≡ c.links)

on_bar-KeepsLinks : (m : Bar.M (Unit {0})) → Answers m → KeepsLinks (on_bar m)
on_bar-KeepsLinks m h c =
    (elim (m c.bar)
        as (λ o.
          Ensures o (λ a l. Unit {0}) (λ e l. Unit {0})
          → Ensures
              (elim o [
                | done a log ↦ done a (record c { bar = log })
                | throws e log ↦ throws e (record c { bar = log })
                | undefined ↦ undefined
              ])
              (λ a d. d.links ≡ c.links) (λ e d. d.links ≡ c.links)) [
                | done a log ↦ λ p. refl
                | throws e log ↦ λ p. refl
                | undefined ↦ λ f. f
              ])
      (h c.bar)

on_bar_2-KeepsLinks : (m : Bar.M (Unit {0})) → Answers m → KeepsLinks (on_bar_2 m)
on_bar_2-KeepsLinks m h c =
    (elim (m c.bar_2)
        as (λ o.
          Ensures o (λ a l. Unit {0}) (λ e l. Unit {0})
          → Ensures
              (elim o [
                | done a log ↦ done a (record c { bar_2 = log })
                | throws e log ↦ throws e (record c { bar_2 = log })
                | undefined ↦ undefined
              ])
              (λ a d. d.links ≡ c.links) (λ e d. d.links ≡ c.links)) [
                | done a log ↦ λ p. refl
                | throws e log ↦ λ p. refl
                | undefined ↦ λ f. f
              ])
      (h c.bar_2)

>>-KeepsLinks : (m k : M (Unit {0})) → KeepsLinks m → KeepsLinks k → KeepsLinks (m >> k)
>>-KeepsLinks m k h r c =
    >>=-Ensures m (λ _. k) (λ u d. d.links ≡ c.links) (λ e d. d.links ≡ c.links)
      (λ u d. d.links ≡ c.links) c (h c)
      (λ u d same. Ensures-mono (k d) _ _ _ _ (r d) (λ v e p. p ∙ same) (λ x e p. p ∙ same))

set_data_generator_pattern-Answers :
    (card : Card) (pattern : GeneratorPattern) (size : ℕ) (random : Bool)
    → Answers (set_data_generator_pattern card pattern size random)
unfolding set_data_generator_pattern write_register read_register set_data_generator_pattern_bits
    set_data_generator_size_bits
set_data_generator_pattern-Answers card pattern size random log = ground arith

set_data_emulator_enabled-Answers :
    (card : Card) (enabled : Bool) → Answers (set_data_emulator_enabled card enabled)
unfolding set_data_emulator_enabled write_register read_register
set_data_emulator_enabled-Answers card enabled log = ground arith

write_register-Answers :
    (card : Card) (register value : ℕ) → Answers (write_register card register value)
unfolding write_register
write_register-Answers card register value log = ground arith

reset_cru-KeepsLinks : (card card_2 : Card) → KeepsLinks (reset_cru card card_2)
unfolding reset_cru reset_data_generator_counter reset_card
reset_cru-KeepsLinks card card_2 =
    >>-KeepsLinks (on_bar (reset_data_generator_counter card)) (on_bar (reset_card card))
      (on_bar-KeepsLinks _ (write_register-Answers card _ _))
      (on_bar-KeepsLinks _ (write_register-Answers card _ _))

init_cru-KeepsLinks : (card card_2 : Card) → KeepsLinks (init_cru card card_2)
unfolding init_cru
init_cru-KeepsLinks card card_2 c = ground (
  arith,
  on_bar-KeepsLinks
      (set_data_generator_pattern card c.generator_pattern c.generator_data_size
        c.generator_data_size_random_enabled)
      (set_data_generator_pattern-Answers card _ _ _) c,
)

select_data-KeepsLinks : (card card_2 : Card) → KeepsLinks (select_data card card_2)
unfolding select_data
select_data-KeepsLinks card card_2 c = ground (
  arith,
  on_bar_2-KeepsLinks (write_register card_2 (0x800_0020 / 4) 1) (write_register-Answers card_2 _ _)
      c,
)

abbrev emptied : Link → Link
emptied l = record l { queue = []; superpage_counter = 0 }

queued-emptied : (ls : List Link) → queued (map emptied ls) ≡ 0
queued-emptied [] = refl
queued-emptied (l ∷ ls) = omega (arith, queued-emptied ls)

AllWithin-emptied : (ls : List Link) → AllWithin (map emptied ls)
AllWithin-emptied [] = tt
AllWithin-emptied (l ∷ ls) = (omega arith, AllWithin-emptied ls)

cleared-IsCru :
    (card card_2 : Card) (c : CruDmaChannel)
    → length c.links ≤ max_links
    → IsCru (cleared card card_2 c)
cleared-IsCru card card_2 c h = record {
  total = link_queue_capacity * length c.links;
  total_lem = refl;
  places = omega (arith, queued-emptied c.links, length-map emptied c.links);
  links_le = omega (arith, length-map emptied c.links);
  within = AllWithin-emptied c.links;
  ready_le = omega arith;
}

-- The channel after a start: no superpage anywhere, and all places free.
abbrev pub IsStarted : CruDmaChannel → CruDmaChannel → Type 0
IsStarted c d =
    IsCru d
    × (d.links ≡ map (λ (l : Link). record l { queue = []; superpage_counter = 0 }) c.links)
    × (d.ready_queue ≡ [])
    × (d.link_queues_total_available ≡ some (link_queue_capacity * length c.links))

-- deviceStartDma() on a channel with at most 24 links, for any cards: if it returns, the invariant
-- holds, the channel has its old links, with empty queues and with counters of 0, an empty ready
-- queue, and 32 free places for each link; if it throws, the links are as they were. Nothing is
-- undefined.
pub device_start_dma_lem :
    (card card_2 : Card) (c : CruDmaChannel)
    → length c.links ≤ max_links
    → Ensures (device_start_dma card card_2 c) (λ u d. IsStarted c d) (λ e d. d.links ≡ c.links)
unfolding device_start_dma
device_start_dma_lem card card_2 c h =
    >>=-Ensures prepared (λ _. modify (cleared card card_2)) (λ u d. d.links ≡ c.links)
      (λ e d. d.links ≡ c.links) (λ u d. IsStarted c d) c (prepared-KeepsLinks c)
      (λ u d same. (
        cleared-IsCru card card_2 d (omega (arith, ap length same)),
        ap (map emptied) same,
        refl,
        ap (λ (ls : List Link). some (link_queue_capacity * length ls)) same,
      ))
  where
    prepared : M (Unit {0})
    prepared =
        reset_cru card card_2
        >> init_cru card card_2
        >> on_bar (set_data_emulator_enabled card true)
        >> select_data card card_2

    prepared-KeepsLinks : KeepsLinks prepared
    prepared-KeepsLinks =
        >>-KeepsLinks _ _
          (>>-KeepsLinks _ _
            (>>-KeepsLinks _ _ (reset_cru-KeepsLinks card card_2) (init_cru-KeepsLinks card card_2))
            (on_bar-KeepsLinks _ (set_data_emulator_enabled-Answers card true)))
          (select_data-KeepsLinks card card_2)
