-- ===== src/Safety/Contract.antt =====
-- contract.go: the time budgets of one actuator resource. A `time.Duration` is a signed integer.
use nervud.Base.{◌<◌, ◌≡◌, Bool, false, ◌||◌, Option, none, some, arith, if◌then◌else◌, leb}
use nervud.Base.Int.{ℤ, pos, pos_part, ltb_ℤ, ◌≤ℤ◌}

pub record Contract : Type 0 where
  pub halt_dispatch_budget : ℤ
  pub provider_accept_timeout : ℤ
  pub device_stop_ack_timeout : ℤ
  pub standstill_timeout : ℤ
  pub mcu_watchdog_timeout : ℤ
  pub standstill_confirmation_supported : Bool

abbrev pub default_contract : Contract
default_contract = record {
  halt_dispatch_budget = pos 5000000;
  provider_accept_timeout = pos 100000000;
  device_stop_ack_timeout = pos 200000000;
  standstill_timeout = pos 1000000000;
  mcu_watchdog_timeout = pos 300000000;
  standstill_confirmation_supported = false;
}

pub data ContractError : Type 0 where
  not_positive accept_after_ack ack_after_standstill : ContractError

abbrev pub not_pos : ℤ → Bool
not_pos d = leb (pos_part d) 0

-- `none` is a contract that passes.
unfoldable pub validate : Contract → Option ContractError
validate c =
    if not_pos c.halt_dispatch_budget
      || not_pos c.provider_accept_timeout
      || not_pos c.device_stop_ack_timeout
      || not_pos c.standstill_timeout
      || not_pos c.mcu_watchdog_timeout
    then some not_positive
    else if ltb_ℤ c.device_stop_ack_timeout c.provider_accept_timeout
    then some accept_after_ack
    else if ltb_ℤ c.standstill_timeout c.device_stop_ack_timeout
    then some ack_after_standstill
    else none

-- What `Validate` promises: every budget is positive, and the escalation windows are in order.
pub record IsSound (c : Contract) : Type 0 where
  pub dispatch_positive : 0 < pos_part c.halt_dispatch_budget
  pub accept_positive : 0 < pos_part c.provider_accept_timeout
  pub ack_positive : 0 < pos_part c.device_stop_ack_timeout
  pub standstill_positive : 0 < pos_part c.standstill_timeout
  pub watchdog_positive : 0 < pos_part c.mcu_watchdog_timeout
  pub accept_le_ack : c.provider_accept_timeout ≤ℤ c.device_stop_ack_timeout
  pub ack_le_standstill : c.device_stop_ack_timeout ≤ℤ c.standstill_timeout

-- A contract that passes `Validate` is sound.
pub validate-IsSound : (c : Contract) → validate c ≡ none → IsSound c
unfolding validate
validate-IsSound c h = ground arith
