-- ===== src/Rorc/CrorcCard/PortStates.antt =====
-- The state of a port, as ddlInterpretIFSTW() tells it.
use flp_prototype.Rorc.CrorcCard.Status.{
  Message, check_table_exclusive, ddl_interpret_ifstw, diu_test_mode, interpret_diu, interpret_siu,
  siu_undefined, diu_messages, diu_ports, siu_messages, siu_ports,
}
use flp_prototype.Rorc.CrorcCard.Registers.{has}
use flp_prototype.Rorc.CrorcCard.Constants.{diu, ifstw, stmask}
use flp_prototype.Base.{
  List, [], arith, if◌then◌else◌, last?, some, true, ℕ, ◌%◌, ◌==◌, ◌^◌, ◌∷◌, ◌≡◌, ap, last?-append,
  ◌++◌, ◌∙◌, false,
}
use Prim.Native.Nat.{bit_and}

diu_port-first :
    (status : ℕ)
    → has status 0x7000 ≡ true
    → check_table_exclusive status diu_ports ≡ diu_test_mode ∷ []
unfolding check_table_exclusive
diu_port-first status h = ground (arith, h)

siu_port-first :
    (status : ℕ)
    → has status 0x7000 ≡ true
    → check_table_exclusive status siu_ports ≡ siu_undefined ∷ []
unfolding check_table_exclusive
siu_port-first status h = ground (arith, h)

last?-end :
    (xs ys : List Message) (message : Message) → ys ≡ message ∷ [] → last? (xs ++ ys) ≡ some message
last?-end xs ys message e = ap (λ zs. last? (xs ++ zs)) e ∙ last?-append xs message

-- The word that the table of the ports is met with.
abbrev pub port_word : ℕ → ℕ
port_word ifstw =
    if ifstw % 2 ^ 4 == diu then bit_and ifstw stmask else bit_and (bit_and ifstw stmask) 0x7000

-- Whatever state the port of a DIU or an SIU is in, other than power-on reset, so that one of the three
-- bits of the state is set in the word that the table is met with: the last message tells of the test
-- mode of the DIU, or of an undefined state of the SIU, since the entry with all three bits is first
-- and any of them meets it.
pub ddl_interpret_ifstw_lem :
    (ifstw : ℕ)
    → has (port_word ifstw) 0x7000 ≡ true
    → last? (ddl_interpret_ifstw ifstw)
      ≡ some (if ifstw % 2 ^ 4 == diu then diu_test_mode else siu_undefined)
unfolding ddl_interpret_ifstw interpret_diu interpret_siu
ddl_interpret_ifstw_lem ifstw h =
    (elim (ifstw % 2 ^ 4 == diu)
        as (λ b.
          has (if b then bit_and ifstw stmask else bit_and (bit_and ifstw stmask) 0x7000) 0x7000
            ≡ true
          → last? (
              if b
              then interpret_diu (bit_and ifstw stmask)
              else interpret_siu (bit_and ifstw stmask))
            ≡ some (if b then diu_test_mode else siu_undefined)) [
              | true ↦ λ g.
                  last?-end (diu_messages (bit_and ifstw stmask)) _ diu_test_mode
                    (diu_port-first (bit_and ifstw stmask) g)
              | false ↦ λ g.
                  last?-end (siu_messages (bit_and ifstw stmask)) _ siu_undefined
                    (siu_port-first (bit_and (bit_and ifstw stmask) 0x7000) g)
            ])
      h
