-- ===== src/Watchdog/Device.antt =====
-- `WatchdogBase`, what a kind of device offers, and `NullWatchdog`, which does nothing.
use system_design_hse_miem.Prelude.{Bool, true, false, Option, none, some}
use system_design_hse_miem.Prelude.Int.{ℤ, pos}

-- An operation returns the device as it is afterwards; `none` is a `WatchdogError`, which leaves the
-- device as it was. Whether it runs and whether it is healthy is always answered.
pub record Driver (Device : Type 0) : Type 0 where
  pub open_device : Device → Option Device
  pub close_device : Device → Option Device
  pub send_keepalive : Device → Option Device
  pub get_timeout : Device → Option ℤ
  pub has_set_timeout : Device → Option Bool
  pub set_timeout : ℤ → Device → Option Device
  pub is_running : Device → Bool
  pub is_healthy : Device → Bool
  pub can_be_disabled : Device → Option Bool

pub data Impl (Device : Type 0) : Type 0 where
  null_watchdog : Impl Device
  device : Device → Impl Device

abbrev pub as_impl : {Device : Type 0} → Option Device → Option (Impl Device)
as_impl none = none
as_impl (some d) = some (device d)

abbrev pub is_null_impl : {Device : Type 0} → Impl Device → Bool
is_null_impl null_watchdog = true
is_null_impl (device d) = false

module _ {Device : Type 0} (driver : Driver Device) where
  abbrev pub impl_open : Impl Device → Option (Impl Device)
  impl_open null_watchdog = some null_watchdog
  impl_open (device d) = as_impl (driver.open_device d)

  abbrev pub impl_close : Impl Device → Option (Impl Device)
  impl_close null_watchdog = some null_watchdog
  impl_close (device d) = as_impl (driver.close_device d)

  abbrev pub impl_keepalive : Impl Device → Option (Impl Device)
  impl_keepalive null_watchdog = some null_watchdog
  impl_keepalive (device d) = as_impl (driver.send_keepalive d)

  abbrev pub impl_timeout : Impl Device → Option ℤ
  impl_timeout null_watchdog = some (pos 1000000000)
  impl_timeout (device d) = driver.get_timeout d

  abbrev pub impl_has_set_timeout : Impl Device → Option Bool
  impl_has_set_timeout null_watchdog = some false
  impl_has_set_timeout (device d) = driver.has_set_timeout d

  abbrev pub impl_set_timeout : ℤ → Impl Device → Option (Impl Device)
  impl_set_timeout n null_watchdog = none
  impl_set_timeout n (device d) = as_impl (driver.set_timeout n d)

  abbrev pub impl_is_running : Impl Device → Bool
  impl_is_running null_watchdog = false
  impl_is_running (device d) = driver.is_running d

  abbrev pub impl_is_healthy : Impl Device → Bool
  impl_is_healthy null_watchdog = false
  impl_is_healthy (device d) = driver.is_healthy d

  abbrev pub impl_can_be_disabled : Impl Device → Option Bool
  impl_can_be_disabled null_watchdog = some true
  impl_can_be_disabled (device d) = driver.can_be_disabled d
