-- ===== src/Watchdog/Guard.antt =====
-- `Watchdog`, the facade that activates the device and follows the settings.
use system_design_hse_miem.Prelude.{
  Bool, true, false, not, ◌&&◌, ◌||◌, Option, none, some, if◌then◌else◌,
}
use system_design_hse_miem.Prelude.Int.{ℤ, pos, ltb_ℤ, leb_ℤ, eqb_ℤ}
use system_design_hse_miem.Watchdog.Settings.{WatchdogConfig, is_required, timeout, timing_slack}
use system_design_hse_miem.Watchdog.Device.{
  Driver, Impl, null_watchdog, impl_open, impl_close, impl_keepalive, impl_timeout,
  impl_has_set_timeout, impl_set_timeout, impl_is_running, impl_is_healthy, impl_can_be_disabled,
}

pub record Watchdog (Device : Type 0) : Type 0 where
  pub config : WatchdogConfig
  pub active_config : WatchdogConfig
  pub active : Bool
  pub impl : Impl Device

module _ {Device : Type 0} (driver : Driver Device) where
  -- A time-out that is too short for `loop_wait`: the device is closed if it can be disabled.
  abbrev pub too_short : Impl Device → ℤ → Option Bool → Option (Impl Device × Option ℤ)
  too_short impl actual none = none
  too_short impl actual (some true) = elim (impl_close driver impl) [
    | none ↦ none
    | some i ↦ some (null_watchdog, none)
  ]
  too_short impl actual (some false) = some (impl, some actual)

  abbrev pub checked_timeout :
      WatchdogConfig → Impl Device → Option ℤ → Option (Impl Device × Option ℤ)
  checked_timeout config impl none = none
  checked_timeout config impl (some actual) =
      if impl_is_running driver impl && ltb_ℤ actual config.loop_wait
      then too_short impl actual (impl_can_be_disabled driver impl)
      else some (impl, some actual)

  abbrev pub after_set : WatchdogConfig → Option (Impl Device) → Option (Impl Device × Option ℤ)
  after_set config none = none
  after_set config (some impl) = checked_timeout config impl (impl_timeout driver impl)

  abbrev pub set_if : WatchdogConfig → Impl Device → Option Bool → Option (Impl Device)
  set_if config impl none = none
  set_if config impl (some true) = impl_set_timeout driver (timeout config) impl
  set_if config impl (some false) = some impl

  -- `_set_timeout`; `none` is a `WatchdogError`.
  unfoldable pub set_timeout_of : WatchdogConfig → Impl Device → Option (Impl Device × Option ℤ)
  unfolding timeout
  set_timeout_of config impl =
      after_set config (set_if config impl (impl_has_set_timeout driver impl))

  abbrev pub opened : WatchdogConfig → Option (Impl Device) → Option (Impl Device × Option ℤ)
  opened config none = none
  opened config (some impl) = set_timeout_of config impl

  -- The `except` branch.
  abbrev pub or_null_impl : Option (Impl Device × Option ℤ) → Impl Device × Option ℤ
  or_null_impl none = (null_watchdog, impl_timeout driver null_watchdog)
  or_null_impl (some r) = r

  abbrev pub set_up : WatchdogConfig → Impl Device → Impl Device × Option ℤ
  set_up config impl = or_null_impl (
      opened config
        (impl_open driver (if ltb_ℤ (timing_slack config) (pos 0) then null_watchdog else impl)))

  -- `actual_timeout and actual_timeout > self.config.timeout`
  abbrev pub is_too_long : WatchdogConfig → Option ℤ → Bool
  is_too_long config none = false
  is_too_long config (some n) = not (eqb_ℤ n (pos 0)) && ltb_ℤ (timeout config) n

  abbrev pub is_safe : WatchdogConfig → Impl Device × Option ℤ → Bool
  is_safe config (impl, actual) =
      if (not (impl_is_running driver impl) || is_too_long config actual) && is_required config.mode
      then false
      else impl_is_running driver impl || not (is_required config.mode)

  -- Behind the `try` it is asked whether a device that runs can be disabled: `none` is a
  -- `WatchdogError` that leaves `_activate`.
  abbrev pub known_safe : WatchdogConfig → Impl Device × Option ℤ → Option Bool → Option Bool
  known_safe config r none = none
  known_safe config r (some b) = some (is_safe config r)

  abbrev pub verdict : WatchdogConfig → Impl Device × Option ℤ → Option Bool
  verdict config r =
      if impl_is_running driver r.0
      then known_safe config r (impl_can_be_disabled driver r.0)
      else some (is_safe config r)

  -- `_activate`
  unfoldable pub try_activate : Watchdog Device → Option Bool × Watchdog Device
  unfolding set_timeout_of timing_slack timeout
  try_activate w =
      let r = set_up w.config w.impl in
      (verdict w.config r, record w { active_config = w.config; impl = r.0 })

  unfoldable pub activate : Watchdog Device → Option Bool × Watchdog Device
  unfolding try_activate
  activate w = try_activate (record w { active = true })

  abbrev pub closed : Option (Impl Device) → Impl Device → Impl Device
  closed none impl = impl
  closed (some i) impl = i

  -- The time-out is asked for a message.
  abbrev pub closed_if_known : Option ℤ → Impl Device → Impl Device
  closed_if_known none impl = impl
  closed_if_known (some n) impl = closed (impl_close driver impl) impl

  abbrev pub closed_after : Option (Impl Device) → Impl Device → Impl Device
  closed_after none impl = impl
  closed_after (some i) impl = closed_if_known (impl_timeout driver i) i

  abbrev pub closed_running : Option Bool → Impl Device → Impl Device
  closed_running none impl = impl
  closed_running (some true) impl = closed (impl_close driver impl) impl
  closed_running (some false) impl = closed_after (impl_keepalive driver impl) impl

  -- `_disable`, which catches a `WatchdogError`
  unfoldable pub disable_impl : Impl Device → Impl Device
  disable_impl impl =
      if impl_is_running driver impl
      then closed_running (impl_can_be_disabled driver impl) impl
      else closed (impl_close driver impl) impl

  unfoldable pub disable : Watchdog Device → Watchdog Device
  unfolding disable_impl
  disable w = record w { impl = disable_impl w.impl; active = false }

  unfoldable pub is_healthy_watchdog : Watchdog Device → Bool
  unfolding timing_slack
  is_healthy_watchdog w =
      not (is_required w.config.mode)
      || (leb_ℤ (pos 0) (timing_slack w.config) && impl_is_healthy driver w.impl)
