-- ===== src/Rorc/Dma/Opening.antt =====
-- RORC/src/DmaChannelBase.cxx and RORC/src/DmaChannelPdaBase.cxx: the constructors. What the
-- operating system, the PDA library and the buffer providers answer is a record of parameters. Log
-- messages are left out.
pub mod Needs
use flp_prototype.Base.{
  ℕ, Bool, true, false, not, List, Option, none, some, Outcome, throws, ◌>>◌, throw_if, pure,
}
use flp_prototype.Rorc.Error.{
  Error, no_buffer_parameters, no_channel_number, named_mutex_taken, lock_failed, call_failed,
}
use flp_prototype.Rorc.Dma.{check_channel_number}

-- What a try to get the Interprocess::Lock comes to: its constructor returns, throws a
-- NamedMutexLockException, or throws anything else.
pub data Attempt : Type 0 where
  acquired mutex_taken other_failure : Attempt

-- Which of the calls return. `second_attempt` is the one after the named mutex was removed.
pub record Surroundings : Type 0 where
  pub card_described : Bool
  pub directories_made : Bool
  pub first_attempt : Attempt
  pub second_attempt : Attempt
  pub buffer_provided : Bool
  pub device_opened : Bool
  pub buffer_registered : Bool

-- The parameters that the two constructors read: the channel number as its 32-bit word, and whether
-- there are parameters of a buffer.
pub record BaseParameters : Type 0 where
  pub channel_number_given : Option ℕ
  pub forced_unlock_given : Option Bool
  pub buffer_given : Bool

abbrev pub get_value_or {ℓ} : {A : Type ℓ} → Option A → A → A
get_value_or none a = a
get_value_or (some b) a = b

-- A call that may throw.
abbrev pub call : {S : Type 0} → Bool → S → Outcome S Error (Unit {0})
call returns = throw_if (not returns) call_failed

pub attempt : {S : Type 0} → Attempt → S → Outcome S Error (Unit {0})
attempt acquired = pure tt
attempt mutex_taken = throws named_mutex_taken
attempt other_failure = throws lock_failed

-- The lock, with the second attempt for a user who allows to force it.
pub get_lock : {S : Type 0} → Bool → Attempt → Attempt → S → Outcome S Error (Unit {0})
unfolding attempt
get_lock true mutex_taken second = attempt second
get_lock false mutex_taken second = attempt mutex_taken
get_lock forced acquired second = attempt acquired
get_lock forced other_failure second = attempt other_failure

pub check_channel : {S : Type 0} → List ℕ → Option ℕ → S → Outcome S Error (Unit {0})
unfolding check_channel_number
check_channel allowed none = throws no_channel_number
check_channel allowed (some n) = check_channel_number allowed n

unfoldable pub construct_base :
    {S : Type 0} → List ℕ → Surroundings → BaseParameters → S → Outcome S Error (Unit {0})
unfolding check_channel get_lock
construct_base allowed w p =
    call w.card_described
    >> (check_channel allowed p.channel_number_given
        >> (call w.directories_made
            >> (get_lock (get_value_or p.forced_unlock_given false) w.first_attempt w.second_attempt
                >> (throw_if (not p.buffer_given) no_buffer_parameters >> call w.buffer_provided))))

-- The constructor of DmaChannelPdaBase, that of its base class first.
unfoldable pub construct_pda_base :
    {S : Type 0} → List ℕ → Surroundings → BaseParameters → S → Outcome S Error (Unit {0})
unfolding construct_base
construct_pda_base allowed w p =
    construct_base allowed w p >> (call w.device_opened >> call w.buffer_registered)
