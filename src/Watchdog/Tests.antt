-- ===== src/Watchdog/Tests.antt =====
-- A device with a time-out that can be set, and the properties at concrete settings.
use system_design_hse_miem.Prelude.{true, false, some, ◌≡◌, refl, ◌⊎◌}
use system_design_hse_miem.Prelude.Int.{ℤ, pos, ◌≤ℤ◌, ◌-ℤ◌}
use system_design_hse_miem.Values.{str, no_fields}
use system_design_hse_miem.Watchdog.Settings.{
  WatchdogConfig, required, automatic, timeout, timing_slack,
}
use system_design_hse_miem.Watchdog.Device.{Driver, null_watchdog, device}
use system_design_hse_miem.Watchdog.Guard.{Watchdog, activate, set_timeout_of}
use system_design_hse_miem.Watchdog.Activation.{activate-IsGuarded}
use system_design_hse_miem.Watchdog.Follow.{keepalive}
use system_design_hse_miem.Watchdog.Stuck.{keepalive-stuck}

-- A device is its time-out; it runs from the start.
abbrev timer : Driver ℤ
timer = record {
  open_device = λ d. some d;
  close_device = λ d. some d;
  send_keepalive = λ d. some d;
  get_timeout = λ d. some d;
  has_set_timeout = λ d. some true;
  set_timeout = λ n d. some n;
  is_running = λ d. true;
  is_healthy = λ d. true;
  can_be_disabled = λ d. some true;
}

abbrev config : WatchdogConfig
config = record {
  mode = required;
  ttl = pos 30;
  loop_wait = pos 10;
  safety_margin = pos 5;
  driver = str "default";
  driver_config = no_fields;
}

abbrev guard : Watchdog ℤ
guard = record { config = config; active_config = config; active = false; impl = device (pos 60) }

activate-IsGuarded_example :
    (pos 0 ≤ℤ timing_slack config)
    × ((d : ℤ) × (n : ℤ) × ((activate timer guard).1.impl ≡ device d)
        × (true ≡ true)
        × (some d ≡ some n)
        × ((n ≡ pos 0) ⊎ (n ≤ℤ timeout config)))
unfolding activate timeout timing_slack ◌-ℤ◌ set_timeout_of
activate-IsGuarded_example = activate-IsGuarded timer guard refl refl

abbrev automatic_30 : WatchdogConfig
automatic_30 = record config { mode = automatic }

abbrev automatic_60 : WatchdogConfig
automatic_60 = record automatic_30 { ttl = pos 60 }

keepalive-stuck_example :
    keepalive timer
      (λ c. null_watchdog)
      (λ a b. true)
      (record {
        config = automatic_60;
        active_config = automatic_30;
        active = true;
        impl = null_watchdog;
      })
    ≡ record {
      config = automatic_60;
      active_config = automatic_30;
      active = true;
      impl = null_watchdog;
    }
unfolding timeout ◌-ℤ◌
keepalive-stuck_example =
    keepalive-stuck timer (λ c. null_watchdog) (λ a b. true) automatic_60 automatic_30 refl refl
      refl refl
