-- ===== src/Rorc/CrorcCard/Status.antt =====
-- ddlInterpretIFSTW(): what the bits of an interface status word say. The messages are named for the bits
-- and states that they tell of.
use flp_prototype.Rorc.CrorcCard.Registers.{has}
use flp_prototype.Rorc.CrorcCard.Constants.{diu, error_bit, ifstw, stmask}
use flp_prototype.Base.{Bool, List, [], false, if◌then◌else◌, true, ℕ, ◌%◌, ◌++◌, ◌==◌, ◌^◌, ◌∷◌}
use Prim.Native.Nat.{bit_and}

pub data Message : Type 0 where
  diu_loop_back : Message
  loss_sync diu_txof undefined_1 diu_osinfr diu_invrx diu_cerr undefined_2 diu_dout diu_ifdl
        diu_long diu_rxof diu_frerr :
      Message
  diu_test_mode diu_power_off diu_loss_of_synchronization diu_no_signal diu_waiting diu_online
        diu_offline diu_power_on_reset :
      Message
  siu_loopback siu_open_transaction : Message
  siu_longe siu_ifeds siu_txof siu_iwdat siu_osinfr siu_invrx siu_cerr siu_djlerr siu_dout siu_ifdl
        siu_long siu_rxof siu_frerr siu_lperr :
      Message
  siu_undefined siu_power_off siu_loss_of_synchronization siu_no_signal siu_waiting siu_online
        siu_offline siu_power_on_reset :
      Message

-- errorTable of the DIU
abbrev pub diu_errors : List (ℕ × Message)
diu_errors =
    (0x2000_0000, loss_sync)
    ∷ (0x1000_0000, diu_txof)
    ∷ (0x0800_0000, undefined_1)
    ∷ (0x0400_0000, diu_osinfr)
    ∷ (0x0200_0000, diu_invrx)
    ∷ (0x0100_0000, diu_cerr)
    ∷ (0x0080_0000, undefined_2)
    ∷ (0x0040_0000, diu_dout)
    ∷ (0x0020_0000, diu_ifdl)
    ∷ (0x0010_0000, diu_long)
    ∷ (0x0008_0000, diu_rxof)
    ∷ (0x0004_0000, diu_frerr)
    ∷ []

-- portTable of the DIU
abbrev pub diu_ports : List (ℕ × Message)
diu_ports =
    (0x7000, diu_test_mode)
    ∷ (0x6000, diu_power_off)
    ∷ (0x5000, diu_loss_of_synchronization)
    ∷ (0x4000, diu_no_signal)
    ∷ (0x3000, diu_waiting)
    ∷ (0x2000, diu_online)
    ∷ (0x1000, diu_offline)
    ∷ (0x0, diu_power_on_reset)
    ∷ []

-- okTable of the SIU
abbrev pub siu_oks : List (ℕ × Message)
siu_oks = (0x0001_0000, siu_loopback) ∷ (0x8000, siu_open_transaction) ∷ []

-- errorTable of the SIU
abbrev pub siu_errors : List (ℕ × Message)
siu_errors =
    (0x4000_0000, siu_longe)
    ∷ (0x2000_0000, siu_ifeds)
    ∷ (0x1000_0000, siu_txof)
    ∷ (0x0800_0000, siu_iwdat)
    ∷ (0x0400_0000, siu_osinfr)
    ∷ (0x0200_0000, siu_invrx)
    ∷ (0x0100_0000, siu_cerr)
    ∷ (0x0080_0000, siu_djlerr)
    ∷ (0x0040_0000, siu_dout)
    ∷ (0x0020_0000, siu_ifdl)
    ∷ (0x0010_0000, siu_long)
    ∷ (0x0008_0000, siu_rxof)
    ∷ (0x0004_0000, siu_frerr)
    ∷ (0x0002_0000, siu_lperr)
    ∷ []

-- portTable of the SIU
abbrev pub siu_ports : List (ℕ × Message)
siu_ports =
    (0x7000, siu_undefined)
    ∷ (0x6000, siu_power_off)
    ∷ (0x5000, siu_loss_of_synchronization)
    ∷ (0x4000, siu_no_signal)
    ∷ (0x3000, siu_waiting)
    ∷ (0x2000, siu_online)
    ∷ (0x1000, siu_offline)
    ∷ (0x0, siu_power_on_reset)
    ∷ []

abbrev pub add_if : Bool → Message → List Message → List Message
add_if b message rest = elim b [ true ↦ message ∷ rest | false ↦ rest ]

-- The messages of all entries whose bits are met.
unfoldable pub check_table : ℕ → List (ℕ × Message) → List Message
check_table status [] = []
check_table status ((bits, message) ∷ table) =
    add_if (has status bits) message (check_table status table)

-- The message of the first such entry.
unfoldable pub check_table_exclusive : ℕ → List (ℕ × Message) → List Message
check_table_exclusive status [] = []
check_table_exclusive status ((bits, message) ∷ table) = elim (has status bits) [
  | true ↦ message ∷ []
  | false ↦ check_table_exclusive status table
]

-- The messages but that of the port.
abbrev pub diu_messages : ℕ → List Message
diu_messages status =
    (if has status 0x4000_0000 then diu_loop_back ∷ [] else [])
    ++ (if has status error_bit then check_table (bit_and status 0x7000) diu_errors else [])

abbrev pub siu_messages : ℕ → List Message
siu_messages status =
    if has status error_bit then check_table status siu_errors else check_table status siu_oks

unfoldable pub interpret_diu : ℕ → List Message
interpret_diu status = diu_messages status ++ check_table_exclusive status diu_ports

unfoldable pub interpret_siu : ℕ → List Message
interpret_siu status =
    siu_messages status ++ check_table_exclusive (bit_and status 0x7000) siu_ports

unfoldable pub ddl_interpret_ifstw : ℕ → List Message
ddl_interpret_ifstw ifstw =
    if ifstw % 2 ^ 4 == diu
    then interpret_diu (bit_and ifstw stmask)
    else interpret_siu (bit_and ifstw stmask)
