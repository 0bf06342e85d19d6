-- ===== src/Rorc/CrorcCard/Constants.antt =====
-- The constants of RORC/src/Crorc/Constants.h that class Crorc uses.
use flp_prototype.Base.{ℕ}

-- Rorc: the registers
abbrev pub rcsr : ℕ
rcsr = 0

abbrev pub c_csr : ℕ
c_csr = 4

abbrev pub c_dcr : ℕ
c_dcr = 6

abbrev pub c_dsr : ℕ
c_dsr = 7

abbrev pub c_dg1 : ℕ
c_dg1 = 8

abbrev pub c_dg2 : ℕ
c_dg2 = 9

abbrev pub c_dg3 : ℕ
c_dg3 = 10

abbrev pub c_dg4 : ℕ
c_dg4 = 11

abbrev pub c_rrbar : ℕ
c_rrbar = 13

abbrev pub c_rafl : ℕ
c_rafl = 14

abbrev pub c_rafh : ℕ
c_rafh = 15

abbrev pub c_rafx : ℕ
c_rafx = 32

abbrev pub c_rrbx : ℕ
c_rrbx = 33

-- Rorc::RcsrCommand
abbrev pub reset_chan : ℕ
reset_chan = 0x2

-- Rorc::CcsrCommand
abbrev pub reset_diu : ℕ
reset_diu = 0x1

abbrev pub clear_fifos : ℕ
clear_fifos = 0x2

abbrev pub clear_rxff : ℕ
clear_rxff = 0x4

abbrev pub clear_txff : ℕ
clear_txff = 0x8

abbrev pub clear_error : ℕ
clear_error = 0x10

abbrev pub clear_counters : ℕ
clear_counters = 0x20

abbrev pub data_rx_on_off : ℕ
data_rx_on_off = 0x200

abbrev pub start_dg : ℕ
start_dg = 0x400

abbrev pub stop_dg : ℕ
stop_dg = 0x800

abbrev pub loopb_on_off : ℕ
loopb_on_off = 0x1000

-- Rorc::CcsrStatus
abbrev pub link_down : ℕ
link_down = 0x2000

abbrev pub cmd_not_empty : ℕ
cmd_not_empty = 0x10000

abbrev pub rxaff_empty : ℕ
rxaff_empty = 0x40000

abbrev pub rxaff_full : ℕ
rxaff_full = 0x80000

abbrev pub rxstat_not_empty : ℕ
rxstat_not_empty = 0x800000

abbrev pub rxdat_not_empty : ℕ
rxdat_not_empty = 0x2000000

-- Rorc::DcrCommand
abbrev pub reset_siu_command : ℕ
reset_siu_command = 0xf1

-- Rorc::Reset
abbrev pub option_ff : ℕ
option_ff = 1

abbrev pub option_rorc : ℕ
option_rorc = 2

abbrev pub option_diu : ℕ
option_diu = 4

abbrev pub option_siu : ℕ
option_siu = 8

abbrev pub option_link_up : ℕ
option_link_up = 16

abbrev pub option_fee : ℕ
option_fee = 32

abbrev pub option_fifos : ℕ
option_fifos = 64

abbrev pub option_error : ℕ
option_error = 128

abbrev pub option_counters : ℕ
option_counters = 256

-- Rorc: the codes of status words
abbrev pub rand_cifst : ℕ
rand_cifst = 0

abbrev pub ctstw : ℕ
ctstw = 0

abbrev pub ctstw_to : ℕ
ctstw_to = 1

abbrev pub ilcmd : ℕ
ilcmd = 2

abbrev pub ifstw : ℕ
ifstw = 12

-- Ddl::Destination
abbrev pub diu : ℕ
diu = 1

abbrev pub siu : ℕ
siu = 2

abbrev pub fee : ℕ
fee = 4

-- Ddl and Fee: commands
abbrev pub srst : ℕ
srst = 15

abbrev pub ifloop : ℕ
ifloop = 9

abbrev pub tstmode : ℕ
tstmode = 13

abbrev pub rdyrx : ℕ
rdyrx = 1

abbrev pub eobtr : ℕ
eobtr = 11

-- Ddl, Diu and Siu: bits of status words
abbrev pub stmask : ℕ
stmask = 0xfffff0ff

abbrev pub error_bit : ℕ
error_bit = 0x80000000

abbrev pub lbmod : ℕ
lbmod = 0x10000

abbrev pub optran : ℕ
optran = 0x8000

-- Ddl: cycles to wait for an answer
abbrev pub response_time : ℕ
response_time = 1000
