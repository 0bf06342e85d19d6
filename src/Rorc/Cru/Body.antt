-- ===== src/Rorc/Cru/Body.antt =====
-- The body of the constructor of CruDmaChannel.
use flp_prototype.Rorc.Queue.Ids.{ids}
use mathlib.Core.Path.{subst}
use native.Mathlib.Decide.{dec_lt}
use flp_prototype.Base.{
  ℕ, ◌+◌, ◌<◌, ◌≤◌, ◌≡◌, refl, sym, ◌∙◌, ap, arith, inl, inr, Bool, true, false, ◌==◌, List, [],
  ◌∷◌, ◌++◌, Option, some, none, length, length-map, map, Outcome, throws, Bool-cases, append-nil,
  append_assoc, Ensures, Ensures-mono, >>=-Ensures, ◌>>◌,
}
use flp_prototype.Rorc.Error.{Error, invalid_link}
use flp_prototype.Rorc.Bar.{Log}
use flp_prototype.Rorc.BarAccessor.{FirmwareFeatures}
use flp_prototype.Rorc.Cru.{
  CruDmaChannel, Link, Parameters, max_links, insert_links, initial, check_page_size,
  check_generator, construct_body,
}
use flp_prototype.Rorc.Dma.Opening.{get_value_or}

-- A set of numbers as an iterator goes through it: rising, from `least` on.
abbrev pub IsRising : ℕ → List ℕ → Type 0
IsRising least [] = Unit {0}
IsRising least (id ∷ ids) = (least ≤ id) × IsRising (id + 1) ids

abbrev pub fresh_link : ℕ → Link
fresh_link id = record { id = id; superpage_counter = 0; queue = [] }

-- All ids are those of links that the CRU has.
abbrev pub AllBelow : List ℕ → Type 0
AllBelow [] = Unit {0}
AllBelow (id ∷ ids) = (id < max_links) × AllBelow ids

rising-length :
    (least : ℕ) (ids : List ℕ)
    → least ≤ max_links
    → IsRising least ids
    → AllBelow ids
    → least + length ids ≤ max_links
rising-length least [] h r b = omega arith
rising-length least (id ∷ ids) h r b =
    omega (arith, rising-length (id + 1) ids (omega arith) r.1 b.1)

-- What the loop over the mask leaves.
abbrev pub Inserted : List ℕ → CruDmaChannel → CruDmaChannel → Type 0
Inserted ids c d = AllBelow ids × (d ≡ record c { links = c.links ++ map fresh_link ids })

added : CruDmaChannel → ℕ → CruDmaChannel
added c id = record c { links = c.links ++ fresh_link id ∷ [] }

insert_links_invalid :
    (id : ℕ) (ids : List ℕ) (c : CruDmaChannel)
    → max_links ≤ id
    → insert_links (id ∷ ids) c ≡ throws (invalid_link id) c
unfolding insert_links
insert_links_invalid id ids c h = ground arith

insert_links_valid :
    (id : ℕ) (ids : List ℕ) (c : CruDmaChannel)
    → id < max_links
    → insert_links (id ∷ ids) c ≡ insert_links ids (added c id)
unfolding insert_links added
insert_links_valid id ids c h = ground arith

insert_links-Ensures :
    (ids : List ℕ) (c : CruDmaChannel)
    → Ensures (insert_links ids c) (λ u d. Inserted ids c d) (λ e d. ¬ AllBelow ids)
unfolding insert_links added
insert_links-Ensures [] c = (tt, ap (λ ls. record c { links = ls }) (sym (append-nil c.links)))
insert_links-Ensures (id ∷ ids) c = elim (dec_lt id max_links) [
  | no high ↦
      subst (λ o. Ensures o (λ u d. Inserted (id ∷ ids) c d) (λ e d. ¬ AllBelow (id ∷ ids)))
        (sym (insert_links_invalid id ids c (omega arith))) (λ b. high b.0)
  | yes low ↦
      subst (λ o. Ensures o (λ u d. Inserted (id ∷ ids) c d) (λ e d. ¬ AllBelow (id ∷ ids)))
        (sym (insert_links_valid id ids c low))
        (Ensures-mono (insert_links ids (added c id)) (λ u d. Inserted ids (added c id) d)
          (λ u d. Inserted (id ∷ ids) c d) (λ e d. ¬ AllBelow ids) (λ e d. ¬ AllBelow (id ∷ ids))
          (insert_links-Ensures ids (added c id))
          (λ u d p. (
            (low, p.0),
            p.1
                ∙ ap (λ ls. record c { links = ls })
                    (append_assoc c.links (fresh_link id ∷ []) (map fresh_link ids)),
          ))
          (λ e d n b. n b.1))
]

-- The parameters that the constructor takes.
abbrev pub PageSizeFits : Option ℕ → Type 0
PageSizeFits none = Unit {0}
PageSizeFits (some size) = size ≡ 8192

abbrev pub GeneratorFits : Option Bool → Type 0
GeneratorFits none = Unit {0}
GeneratorFits (some enabled) = enabled ≡ true

abbrev pub Fits : Parameters → Type 0
Fits p =
    PageSizeFits p.dma_page_size_given
    × GeneratorFits p.generator_enabled_given
    × AllBelow (get_value_or p.link_mask_given (0 ∷ []))

check_page_size-Ensures :
    (o : Option ℕ) (c : CruDmaChannel)
    → Ensures (check_page_size o c) (λ u d. (d ≡ c) × PageSizeFits o) (λ e d. ¬ PageSizeFits o)
unfolding check_page_size
check_page_size-Ensures none c = (refl, tt)
check_page_size-Ensures (some size) c = elim (Bool-cases (size == 8192)) [
  | inl e ↦ rw e (refl, ground arith)
  | inr n ↦ rw n (λ e. ground arith)
]

check_generator-Ensures :
    (o : Option Bool) (c : CruDmaChannel)
    → Ensures (check_generator o c) (λ u d. (d ≡ c) × GeneratorFits o) (λ e d. ¬ GeneratorFits o)
unfolding check_generator
check_generator-Ensures none c = (refl, tt)
check_generator-Ensures (some true) c = (refl, refl)
check_generator-Ensures (some false) c = λ e. cc

rising-length_max : (ids : List ℕ) → IsRising 0 ids → AllBelow ids → length ids ≤ max_links
rising-length_max ids r b = omega (arith, rising-length 0 ids (omega arith) r b)

-- A new channel: one link with an empty queue for each number of the mask, no superpage, and no
-- count of places.
abbrev pub IsNew : Log → FirmwareFeatures → Parameters → CruDmaChannel → Type 0
IsNew log features p c = c ≡ record (initial log features p) {
  links = map fresh_link (get_value_or p.link_mask_given (0 ∷ []));
}

pub construct_body-Ensures :
    (log : Log) (features : FirmwareFeatures) (p : Parameters)
    → IsRising 0 (get_value_or p.link_mask_given (0 ∷ []))
    → Ensures
        (construct_body p (initial log features p))
        (λ u c. Fits p × (IsNew log features p c × (length c.links ≤ max_links)))
        (λ e c. ¬ Fits p)
unfolding construct_body
construct_body-Ensures log features p rising =
    >>=-Ensures (check_page_size p.dma_page_size_given) (λ _. generator >> links)
      (λ u d. (d ≡ start) × PageSizeFits p.dma_page_size_given) Bad Good start
      (Ensures-mono (check_page_size p.dma_page_size_given start) _ _ _ Bad
        (check_page_size-Ensures p.dma_page_size_given start) (λ u d h. h) (λ e d n f. n f.0))
      (λ u d h. subst (λ x. Ensures ((generator >> links) x) Good Bad) (sym h.0) (second h.1))
  where
    start : CruDmaChannel
    start = initial log features p

    generator : CruDmaChannel → Outcome CruDmaChannel Error (Unit {0})
    generator = check_generator p.generator_enabled_given

    links : CruDmaChannel → Outcome CruDmaChannel Error (Unit {0})
    links = insert_links (get_value_or p.link_mask_given (0 ∷ []))

    Good : Unit {0} → CruDmaChannel → Type 0
    Good u c = Fits p × (IsNew log features p c × (length c.links ≤ max_links))

    Bad : Error → CruDmaChannel → Type 0
    Bad e c = ¬ Fits p

    third :
        PageSizeFits p.dma_page_size_given
        → GeneratorFits p.generator_enabled_given
        → Ensures (links start) Good Bad
    third s g =
        Ensures-mono (links start)
          (λ u d. Inserted (get_value_or p.link_mask_given (0 ∷ [])) start d) Good
          (λ e d. ¬ AllBelow (get_value_or p.link_mask_given (0 ∷ []))) Bad
          (insert_links-Ensures (get_value_or p.link_mask_given (0 ∷ [])) start)
          (λ u d h. (
            (s, g, h.0),
            (
              h.1,
              omega (
                arith,
                ap (λ (x : CruDmaChannel). length x.links) h.1,
                length-map fresh_link (get_value_or p.link_mask_given (0 ∷ [])),
                rising-length_max _ rising h.0,
              ),
            ),
          ))
          (λ e d n f. n f.2)

    second : PageSizeFits p.dma_page_size_given → Ensures ((generator >> links) start) Good Bad
    second s =
        >>=-Ensures generator (λ _. links)
          (λ u d. (d ≡ start) × GeneratorFits p.generator_enabled_given) Bad Good start
          (Ensures-mono (generator start) _ _ _ Bad
            (check_generator-Ensures p.generator_enabled_given start) (λ u d h. h)
            (λ e d n f. n f.1))
          (λ u d h. subst (λ x. Ensures (links x) Good Bad) (sym h.0) (third s h.1))
