-- ===== src/Rorc/CrorcCard/SerialNumber.antt =====
-- getSerial(): what it reads, and what it makes of it.
use flp_prototype.Base.{
  Bool, Ensures, List, [], drop, false, refl, replicate, set, suc, take, true, zero, ℕ, ◌%◌, ◌+◌,
  ◌/◌, ◌==◌, ◌^◌, ◌||◌, ◌∷◌, ◌≡◌, >>=-Ensures, Ensures-mono, Outcome, ap, arith, length, length-set,
  ltb, pure, ◌<◌, ◌∙◌, sym, ◌*◌, ◌>>=◌, Option, inl, inr, none, some, throws, ◌-◌, ◌≢◌, ◌⊎◌,
}
use mathlib.Core.Path.{subst}
use mathlib.Core.Option
use flp_prototype.Rorc.CrorcCard.Registers.{branch}
use flp_prototype.Rorc.Error.{Error, serial_all_ones, bar_access_failed}
use flp_prototype.Rorc.CrorcCard.Serial.{
  get_serial, put_pair, read_characters, serial_length, flash_address, serial_position,
}
use flp_prototype.Rorc.CrorcCard.Rules.{branch-Ensures}
use flp_prototype.Rorc.CrorcCard.Flash.{
  data_status_register, address_register, magic_1, magic_10, read_status, read_word, init,
  write_status_sleep,
}
use flp_prototype.Rorc.Bar.Steps.{answer, write-then, was_read-Ensures}
use flp_prototype.Rorc.Bar.{Card, Log, M, was_read, wrote, read_register}
use flp_prototype.Base.Int.{to_int, ℤ}

-- A value goes to the flash.
abbrev pub to_flash : ℕ → Log → Log
to_flash value log = wrote data_status_register value ∷ log

-- The accesses that initiate the flash, and those that read the word at an address up to its read.
abbrev pub inited : Log → Log
inited log =
    was_read address_register
    ∷ to_flash magic_1 (
        to_flash 0x0300_0070 (
          to_flash 0x0147_0000 (
            to_flash 0x0300_0003
              (to_flash 0x0300_0060 (to_flash 0x0100_bddf (to_flash 0x0300_0050 log))))))

abbrev pub asked_word : ℕ → Log → Log
asked_word address log = to_flash magic_1 (to_flash magic_10 (to_flash (address % 2 ^ 32) log))

abbrev pub after_word : ℕ → Log → Log
after_word address log = was_read address_register ∷ asked_word address log

-- The two bytes of the word that the card shows.
abbrev pub high_byte : Card → ℕ → Log → ℕ
high_byte card address log = answer card (asked_word address log) address_register / 2 ^ 8 % 2 ^ 8

abbrev pub low_byte : Card → ℕ → Log → ℕ
low_byte card address log = answer card (asked_word address log) address_register % 2 ^ 8

abbrev pub ends_text : Card → ℕ → Log → Bool
ends_text card address log = high_byte card address log == 0 || low_byte card address log == 0

abbrev pub unless {ℓ} : {A : Type ℓ} → Bool → A → A → A
unless true stop_here go_on = stop_here
unless false stop_here go_on = go_on

-- The characters of up to n words from an address on, to the first word with a NUL, and the accesses then.
abbrev pub shown : Card → ℕ → ℕ → Log → List ℕ
shown card zero address log = []
shown card (suc n) address log =
    high_byte card address log
    ∷ low_byte card address log
    ∷ unless (ends_text card address log) []
        (shown card n ((address + 1) % 2 ^ 32) (after_word address log))

abbrev pub shown_log : Card → ℕ → ℕ → Log → Log
shown_log card zero address log = log
shown_log card (suc n) address log =
    unless (ends_text card address log) (after_word address log)
      (shown_log card n ((address + 1) % 2 ^ 32) (after_word address log))

-- Characters written into an array from a place on.
abbrev pub overwrite : ℕ → List ℕ → List ℕ → List ℕ
overwrite i [] array = array
overwrite i (c ∷ cs) array = overwrite (i + 1) cs (set array i c)

-- The five characters behind the first of the three words at the serial number's place.
abbrev pub serial_characters : Card → Log → List ℕ
serial_characters card log =
    take 5 (drop 1 (overwrite 0 (shown card 3 0x0147_0010 (inited log)) (replicate 6 0)))

abbrev Failed : Error → Log → Type 0
Failed e l = e ≡ bar_access_failed

module _ (card : Card) where
  status-Ensures :
      (log : Log)
      → Ensures
          (read_status card log)
          (λ s l.
            (s ≡ answer card (to_flash magic_1 log) address_register)
            × (l ≡ was_read address_register ∷ to_flash magic_1 log))
          Failed
  unfolding read_status write_status_sleep
  status-Ensures log =
      write-then card _ _ data_status_register magic_1 (read_register card address_register) log
        refl
        (Ensures-mono (read_register card address_register (to_flash magic_1 log)) _ _ _ _
          (was_read-Ensures card address_register (to_flash magic_1 log)) (λ v l h. h)
          (λ e l h. h.0))

  read_word-Ensures :
      (address : ℕ) (log : Log)
      → Ensures
          (read_word card address log)
          (λ pair l.
            (pair ≡ (high_byte card address log, low_byte card address log))
            × (l ≡ after_word address log))
          Failed
  unfolding read_word write_status_sleep
  read_word-Ensures address log = write-then card _ _ _ address _ log refl (
      write-then card _ _ _ magic_10 _ _ refl (
        >>=-Ensures (read_status card) _ _ _ _ _ (status-Ensures _)
          (λ s l h. (ap (λ n. (n / 2 ^ 8 % 2 ^ 8, n % 2 ^ 8)) h.0, h.1))))

  init-Ensures : (log : Log) → Ensures (init card flash_address log) (λ u l. l ≡ inited log) Failed
  unfolding init write_status_sleep
  init-Ensures log = write-then card _ _ _ _ _ log refl (
      write-then card _ _ _ _ _ _ refl (
        write-then card _ _ _ _ _ _ refl (
          write-then card _ _ _ _ _ _ refl (
            write-then card _ _ _ _ _ _ refl (
              write-then card _ _ _ _ _ _ refl (
                Ensures-mono (read_status card _) _ _ _ _ (status-Ensures _) (λ s l h. h.1)
                  (λ e l h. h)))))))

  -- Where there is room for both characters.
  put_pair-run :
      (array : List ℕ) (i : ℕ) (pair : ℕ × ℕ) (log : Log)
      → i + 1 < 6
      → length array ≡ 6
      → Ensures
          (put_pair array i pair log)
          (λ filled l.
            (filled ≡ set (set array i pair.0) (i + 1) pair.1) × (length filled ≡ 6) × (l ≡ log))
          Failed
  unfolding put_pair
  put_pair-run array i pair log inside six =
      branch-Ensures (ltb (i + 1) (length array)) _ _ _ _ log
        (λ y. (
          refl,
          length-set (set array i pair.0) (i + 1) pair.1 ∙ length-set array i pair.0 ∙ six,
          refl,
        ))
        (λ n. absurd (ground (arith, n, inside, six)))

  abbrev Shows : ℕ → ℕ → ℕ → List ℕ → Log → Outcome Log Error (List ℕ) → Type 0
  Shows m i address array log o =
      Ensures o
        (λ filled l.
          (filled ≡ overwrite i (shown card m address log) array)
          × (l ≡ shown_log card m address log))
        Failed

  abbrev later : ℕ → ℕ → Log → List ℕ
  later m address log = shown card m ((address + 1) % 2 ^ 32) (after_word address log)

  abbrev later_log : ℕ → ℕ → Log → Log
  later_log m address log = shown_log card m ((address + 1) % 2 ^ 32) (after_word address log)

  abbrev overwritten : ℕ → ℕ → ℕ → List ℕ → Log → Bool → List ℕ
  overwritten m i address array log b =
      overwrite (i + 1 + 1) (unless b [] (later m address log))
        (set (set array i (high_byte card address log)) (i + 1) (low_byte card address log))

  more :
      (m i address : ℕ) (array filled : List ℕ) (log : Log) (b : Bool)
      → ends_text card address log ≡ b
      → filled ≡ set (set array i (high_byte card address log)) (i + 1) (low_byte card address log)
      → (rest : M (List ℕ))
      → Shows m
          (i + 2)
          ((address + 1) % 2 ^ 32)
          filled
          (after_word address log)
          (rest (after_word address log))
      → Shows (suc m) i address array log (branch b (pure filled) rest (after_word address log))
  more m i address array filled log true e same rest h = (
    same ∙ ap (λ b. overwritten m i address array log b) (sym e),
    ap (λ b. unless b (after_word address log) (later_log m address log)) (sym e),
  )
  more m i address array filled log false e same rest h =
      Ensures-mono (rest (after_word address log)) _ _ _ _ h
        (λ f l g. (
          g.0
              ∙ ap (λ j. overwrite j (later m address log) filled)
                  (let e : i + 2 ≡ i + 1 + 1 = omega arith in e)
              ∙ ap (overwrite (i + 1 + 1) (later m address log)) same
              ∙ ap (λ b. overwritten m i address array log b) (sym e),
          g.1 ∙ ap (λ b. unless b (after_word address log) (later_log m address log)) (sym e),
        ))
        (λ e l g. g)

  read_characters-Shows :
      (m turns i address : ℕ) (array : List ℕ) (log : Log)
      → i + 2 * m ≡ 6
      → m < turns
      → length array ≡ 6
      → Shows m i address array log (read_characters card turns i address array log)
  unfolding read_characters
  read_characters-Shows m zero i address array log even enough six = absurd (omega arith)
  read_characters-Shows zero (suc turns) i address array log even enough six =
      branch-Ensures (ltb i serial_length) _ _ _ _ log (λ y. absurd (ground (arith, y, even)))
        (λ n. (refl, refl))
  read_characters-Shows (suc m) (suc turns) i address array log even enough six =
      branch-Ensures (ltb i serial_length) _ _ _ _ log
        (λ y.
          >>=-Ensures (read_word card address) _ _ _ _ log (read_word-Ensures address log)
            (λ pair l (shows, same).
              subst (λ l. Shows (suc m) i address array log (store_pair pair l)) (sym same)
                (subst
                  (λ p. Shows (suc m) i address array log (store_pair p (after_word address log)))
                  (sym shows)
                  (stored (λ filled full_again.
                    read_characters-Shows m turns (i + 2) ((address + 1) % 2 ^ 32) filled
                      (after_word address log) (omega (arith, even)) (omega (arith, enough))
                      full_again)))))
        (λ n. absurd (ground (arith, n, even)))
    where
      store_pair : ℕ × ℕ → M (List ℕ)
      store_pair pair = put_pair array i pair >>= λ filled.
          branch (pair.0 == 0 || pair.1 == 0) (pure filled)
            (read_characters card turns (i + 2) ((address + 1) % 2 ^ 32) filled)

      next_pair : ℕ × ℕ
      next_pair = (high_byte card address log, low_byte card address log)

      stored :
          ((filled : List ℕ)
            → length filled ≡ 6
            → Shows m (i + 2) ((address + 1) % 2 ^ 32) filled (after_word address log) (
                read_characters card turns
                  (i + 2)
                  ((address + 1) % 2 ^ 32)
                  filled
                  (after_word address log)))
          → Shows (suc m) i address array log (store_pair next_pair (after_word address log))
      stored ih =
          >>=-Ensures (put_pair array i next_pair) _ _ _ _ (after_word address log)
            (put_pair-run array i next_pair (after_word address log) (omega (arith, even)) six)
            (λ filled l (written, full_again, kept).
              subst
                (λ l. Shows (suc m) i address array log (
                  branch (ends_text card address log) (pure filled)
                    (read_characters card turns (i + 2) ((address + 1) % 2 ^ 32) filled) l))
                (sym kept)
                (more m i address array filled log (ends_text card address log) refl written
                  (read_characters card turns (i + 2) ((address + 1) % 2 ^ 32) filled)
                  (ih filled full_again)))

-- The accesses of getSerial().
abbrev pub serial_log : Card → Log → Log
serial_log card log = shown_log card 3 0x0147_0010 (inited log)

-- What getSerial() returns: the conversion of the characters, as an int.
abbrev pub IsSerial : Card → (List ℕ → Option ℕ) → Log → Option ℤ → Log → Type 0
IsSerial card convert log o l =
    (o ≡ Option.map to_int (convert (serial_characters card log)))
    × (convert (serial_characters card log) ≢ some 0xffff_ffff)
    × (l ≡ serial_log card log)

-- What goes wrong.
abbrev pub NoSerial : Card → (List ℕ → Option ℕ) → Log → Error → Log → Type 0
NoSerial card convert log e l =
    (e ≡ bar_access_failed)
    ⊎ ((e ≡ serial_all_ones)
        × (convert (serial_characters card log) ≡ some 0xffff_ffff)
        × (l ≡ serial_log card log))

module _ (card : Card) (convert : List ℕ → Option ℕ) (log : Log) where
  abbrev judge : Option ℕ → M (Option ℤ)
  judge o = elim o [
    | none ↦ pure none
    | some serial ↦
        branch (serial == 0xffff_ffff) (throws serial_all_ones) (pure (some (to_int serial)))
  ]

  judge-Ensures :
      (o : Option ℕ) (l : Log)
      → convert (serial_characters card log) ≡ o
      → l ≡ serial_log card log
      → Ensures (judge o l) (IsSerial card convert log) (NoSerial card convert log)
  judge-Ensures none l is_o same =
      (sym (ap (Option.map to_int) is_o), λ bad. cc (sym is_o ∙ bad), same)
  judge-Ensures (some serial) l is_o same =
      branch-Ensures (serial == 0xffff_ffff) _ _ _ _ l
        (λ y. inr (refl, is_o ∙ ap some (ground (arith, y)), same))
        (λ n. (
          sym (ap (Option.map to_int) is_o),
          λ bad.
              let all_ones : some serial ≡ some 0xffff_ffff = sym is_o ∙ bad in
              ground (arith, n, all_ones),
          same,
        ))

-- getSerial(), for any card and any conversion of characters: it ends, and never writes outside its
-- array of six characters. It initiates the flash and reads the words from 0x1470010 on, three of them, or up to the first that
-- has a NUL, and makes no other access; their bytes go into an array of six zeros, and the five characters behind its first are
-- converted. What it returns is this conversion, as an
-- int, and this is not 0xffffffff; if it throws, the card refused an access, or the
-- characters are converted to 0xffffffff.
pub get_serial_lem :
    (card : Card) (convert : List ℕ → Option ℕ) (log : Log)
    → Ensures
        (get_serial card convert log)
        (λ o l. IsSerial card convert log o l)
        (λ e l. NoSerial card convert log e l)
unfolding get_serial
get_serial_lem card convert log =
    >>=-Ensures (init card flash_address) _ (λ u l. l ≡ inited log) _ _ log
      (Ensures-mono (init card flash_address log) _ _ _ _ (init-Ensures card log) (λ u l h. h)
        (λ e l h. inl h))
      (λ u l same.
        subst (λ x. Ensures (read x) (IsSerial card convert log) (NoSerial card convert log))
          (sym same) reading)
  where
    characters : M (List ℕ)
    characters =
        read_characters card (serial_length + 1) 0 (flash_address + (serial_position - 1) / 2)
          (replicate (serial_length + 1) 0)

    read : M (Option ℤ)
    read = characters >>= λ filled.
        judge card convert log (convert (take serial_length (drop 1 filled)))

    reading : Ensures (read (inited log)) (IsSerial card convert log) (NoSerial card convert log)
    reading =
        >>=-Ensures characters _ _ _ _ (inited log)
          (Ensures-mono (characters (inited log)) _ _ _ _
            (read_characters-Shows card 3 6 0 0x0147_0010 (replicate 6 0) (inited log) refl
              (omega arith) refl)
            (λ filled l h. h) (λ e l h. inl h))
          (λ filled l h.
            judge-Ensures card convert log (convert (take 5 (drop 1 filled))) l
              (ap (λ f. convert (take 5 (drop 1 f))) (sym h.0)) h.1)
