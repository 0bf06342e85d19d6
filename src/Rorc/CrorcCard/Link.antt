-- ===== src/Rorc/CrorcCard/Link.antt =====
-- The status words of RORC/src/Crorc/StWord.h, and the commands that class Crorc sends over the link.
-- A time counts checks of a register; the loops below run for the checks that are left.
use flp_prototype.Rorc.CrorcCard.Polling.{until}
use flp_prototype.Rorc.Error.{
  ddl_command_timeout, ddl_status_timeout, unexpected_diu_stw, unexpected_siu_stw, unexpected_stw,
}
use flp_prototype.Rorc.CrorcCard.Registers.{
  assert_link_up, check_command_register, check_rx_status, put_command_register, when,
}
use flp_prototype.Rorc.CrorcCard.Constants.{
  c_dsr, ctstw, ctstw_to, diu, ifstw, ilcmd, rand_cifst, response_time, siu,
}
use flp_prototype.Rorc.Bar.{Card, M, read_register}
use flp_prototype.Base.Int.{eqb, negsuc, pos, ℤ}
use flp_prototype.Base.{
  Bool, if◌then◌else◌, ltb, not, pure, throw_if, ℕ, ◌%◌, ◌&&◌, ◌*◌, ◌+◌, ◌-◌, ◌/◌, ◌==◌, ◌>>=◌,
  ◌>>◌, ◌^◌, ◌||◌,
}

-- union StWord, its bit fields in the order of the ABI
pub record StWord : Type 0 where
  pub stw : ℕ

-- part.dest, part.code and part.trid
unfoldable pub dest_part : StWord → ℕ
dest_part w = w.stw % 2 ^ 4

unfoldable pub code_part : StWord → ℕ
code_part w = w.stw / 2 ^ 4 % 2 ^ 4

unfoldable pub trid_part : StWord → ℕ
trid_part w = w.stw / 2 ^ 8 % 2 ^ 4

unfoldable pub param_part : StWord → ℕ
param_part w = w.stw / 2 ^ 12 % 2 ^ 19

-- `& 0xf` on an int
unfoldable pub low_4_bits : ℤ → ℕ
low_4_bits (pos n) = n % 2 ^ 4
low_4_bits (negsuc n) = 2 ^ 4 - 1 - n % 2 ^ 4

-- com = destination + ((command & 0xf) << 4) + ((transid & 0xf) << 8) + ((param & 0x7ffff) << 12)
unfoldable pub packed : ℕ → ℕ → ℤ → ℕ → ℕ
packed destination command transid param =
    (destination + command % 2 ^ 4 * 2 ^ 4 + low_4_bits transid * 2 ^ 8 + param % 2 ^ 19 * 2 ^ 12)
    % 2 ^ 32

-- A full command has its destination in it.
unfoldable pub command_word : ℤ → ℕ → ℤ → ℕ → ℕ
command_word dest command transid param =
    if eqb dest (negsuc 0) then command else packed (low_4_bits dest) command transid param

unfoldable pub destination_of : ℤ → ℕ → ℕ
destination_of dest command = if eqb dest (negsuc 0) then command % 2 ^ 4 else low_4_bits dest

-- stw.part.code == CTSTW || ILCMD || CTSTW_TO
abbrev pub is_command_status : StWord → Bool
is_command_status w = code_part w == ctstw || code_part w == ilcmd || code_part w == ctstw_to

-- stw.part.trid == transid && stw.part.dest == destination
abbrev pub answers_to : StWord → ℤ → ℕ → Bool
answers_to w transid destination = eqb (pos (trid_part w)) transid && dest_part w == destination

module _ (card : Card) where
  -- The loop that waits for the command register, and what stands after it.
  unfoldable pub wait_command_register : ℕ → M (Unit {0})
  wait_command_register time =
      until (check_command_register card >>= λ busy. pure (busy == 0)) ddl_command_timeout time

  unfoldable pub ddl_send_command : ℤ → ℕ → ℤ → ℕ → ℕ → M (Unit {0})
  ddl_send_command dest command transid param time =
      when (ltb diu (destination_of dest command)) (assert_link_up card)
      >> when (not (time == 0)) (wait_command_register time)
      >> put_command_register card (command_word dest command transid param)

  -- The checks are counted by an int, so this is the code for time-outs below 2 ^ 31.
  unfoldable pub ddl_wait_status : ℕ → M (Unit {0})
  ddl_wait_status timeout =
      until (check_rx_status card >>= λ status. pure (not (status == 0))) ddl_status_timeout timeout

  unfoldable pub ddl_read_status : M StWord
  ddl_read_status = read_register card c_dsr >>= λ word. pure (record { stw = word })

  unfoldable pub ddl_read_ctstw : ℤ → ℕ → ℕ → M StWord
  ddl_read_ctstw transid destination time = do
    u ← ddl_wait_status time
    w ← ddl_read_status
    v ← throw_if (not (is_command_status w && answers_to w transid destination)) unexpected_stw
    pure w

  unfoldable pub ddl_read_diu : ℤ → ℕ → M StWord
  ddl_read_diu transid time = do
    s ← ddl_send_command (pos diu) rand_cifst transid 0 time
    u ← ddl_wait_status time
    w ← ddl_read_status
    v ← throw_if (not (code_part w == ifstw && answers_to w transid diu)) unexpected_diu_stw
    ddl_read_ctstw transid diu time

  -- The second status word is read without waiting.
  unfoldable pub ddl_read_siu : ℤ → ℕ → M StWord
  ddl_read_siu transid time = do
    s ← ddl_send_command (pos siu) rand_cifst transid 0 time
    u ← ddl_wait_status time
    w ← ddl_read_status
    v ← throw_if (not (code_part w == ifstw && answers_to w transid siu)) unexpected_siu_stw
    x ← ddl_read_status
    y ← throw_if (not (is_command_status x && answers_to x transid siu)) unexpected_siu_stw
    pure x

  unfoldable pub siu_command : ℤ → M (Unit {0})
  siu_command command = ddl_read_siu command response_time >>= λ w. pure tt

  unfoldable pub diu_command : ℤ → M (Unit {0})
  diu_command command = ddl_read_diu command response_time >>= λ w. pure tt
