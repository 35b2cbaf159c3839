-- ===== src/Watchdog/Follow.antt =====
-- How `Watchdog` follows a change of the settings.
use system_design_hse_miem.Prelude.{
  Bool, true, false, not, ◌&&◌, ◌||◌, Option, none, some, if◌then◌else◌,
}
use system_design_hse_miem.Prelude.Int.{ℤ, eqb_ℤ}
use system_design_hse_miem.Values.{Value, dict}
use system_design_hse_miem.Watchdog.Settings.{WatchdogConfig, is_off, timeout, same_config}
use system_design_hse_miem.Watchdog.Device.{
  Driver, Impl, null_watchdog, impl_keepalive, impl_timeout, impl_set_timeout, impl_is_running,
}
use system_design_hse_miem.Watchdog.Guard.{Watchdog, try_activate}

-- `get_impl` chooses the kind of device by the platform; `equal` is Python's `==`.
module _ {Device : Type 0} (driver : Driver Device) (get_impl : WatchdogConfig → Impl Device)
    (equal : Value → Value → Bool) where
  abbrev pub other_driver : Watchdog Device → Bool
  other_driver w =
      not (equal w.config.driver w.active_config.driver)
      || not (equal (dict w.config.driver_config) (dict w.active_config.driver_config))

  abbrev pub switched_off : Watchdog Device → Watchdog Device
  switched_off w =
      if is_off w.config.mode
      then record w { active_config = w.config; impl = null_watchdog }
      else w

  abbrev pub taken_over : Watchdog Device → Watchdog Device
  taken_over w = if w.active then w else record w {
    impl = if other_driver w then get_impl w.config else w.impl;
    active_config = w.config;
  }

  -- Of `_disable` only the device is touched, which is replaced at once.
  unfoldable pub reload_config : WatchdogConfig → Watchdog Device → Watchdog Device
  reload_config config w = taken_over (switched_off (record w { config = config }))

  -- Whether the call goes on, and the state: a `WatchdogError` ends it, and leaves what was done.
  abbrev pub renewed : Option Bool × Watchdog Device → Bool × Watchdog Device
  renewed (none, w) = (false, w)
  renewed (some b, w) = (true, w)

  abbrev pub renew : Watchdog Device → Bool × Watchdog Device
  renew w = renewed (try_activate driver (record w { impl = get_impl w.config }))

  abbrev pub switched_on : Watchdog Device → Bool × Watchdog Device
  switched_on w =
      if not (is_off w.config.mode) && is_off w.active_config.mode then renew w else (true, w)

  abbrev pub moved_over : Bool × Watchdog Device → Bool × Watchdog Device
  moved_over (true, w) = if other_driver w then renew w else (true, w)
  moved_over (false, w) = (false, w)

  abbrev pub told : Watchdog Device → Option ℤ → Watchdog Device
  told w none = w
  told w (some n) = record w { active_config = w.config }

  -- The message behind the change asks a device that runs for its time-out.
  abbrev pub with_timeout : Watchdog Device → Option (Impl Device) → Watchdog Device
  with_timeout w none = w
  with_timeout w (some i) =
      let set = record w { impl = i } in
      if impl_is_running driver i
      then told set (impl_timeout driver i)
      else record set { active_config = w.config }

  abbrev pub follow_settings : Bool × Watchdog Device → Watchdog Device
  follow_settings (true, w) =
      if not (eqb_ℤ (timeout w.config) (timeout w.active_config))
      then with_timeout w (impl_set_timeout driver (timeout w.config) w.impl)
      else record w { active_config = w.config }
  follow_settings (false, w) = w

  abbrev pub after_keepalive : Watchdog Device → Option (Impl Device) → Watchdog Device
  after_keepalive w none = w
  after_keepalive w (some i) =
      let alive = record w { impl = i } in
      if same_config equal w.config w.active_config
      then alive
      else follow_settings (moved_over (switched_on alive))

  unfoldable pub keepalive : Watchdog Device → Watchdog Device
  unfolding try_activate timeout same_config
  keepalive w = if w.active then after_keepalive w (impl_keepalive driver w.impl) else w
