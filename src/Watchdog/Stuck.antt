-- ===== src/Watchdog/Stuck.antt =====
-- A change of the settings that is never followed.
use system_design_hse_miem.Prelude.{
  Bool, true, false, not, ◌&&◌, ◌≡◌, refl, arith, Bool-cases, inl, inr, ap, ◌∙◌, then_branch,
  else_branch,
}
use system_design_hse_miem.Prelude.Int.{eqb_ℤ}
use system_design_hse_miem.Values.{Value, dict}
use system_design_hse_miem.Watchdog.Settings.{WatchdogConfig, is_off, timeout, same_config}
use system_design_hse_miem.Watchdog.Device.{Driver, Impl, null_watchdog}
use system_design_hse_miem.Watchdog.Guard.{Watchdog}
use system_design_hse_miem.Watchdog.Follow.{
  other_driver, keepalive, switched_on, moved_over, follow_settings,
}

module _ {Device : Type 0} (driver : Driver Device) (get_impl : WatchdogConfig → Impl Device)
    (equal : Value → Value → Bool) where
  -- An active watchdog without a device, whose settings change in their time-out, but neither in the
  -- driver nor from the mode `off`: a keepalive fails and leaves everything as it was, so the next
  -- one fails as well.
  pub keepalive-stuck :
      (config active_config : WatchdogConfig)
      → is_off active_config.mode ≡ false
      → equal config.driver active_config.driver ≡ true
      → equal (dict config.driver_config) (dict active_config.driver_config) ≡ true
      → eqb_ℤ (timeout config) (timeout active_config) ≡ false
      → keepalive driver get_impl equal (record {
        config = config;
        active_config = active_config;
        active = true;
        impl = null_watchdog;
      })
        ≡ record {
          config = config;
          active_config = active_config;
          active = true;
          impl = null_watchdog;
        }
  unfolding keepalive
  keepalive-stuck config active_config on same_driver same_settings changed =
      let w : Watchdog Device = record {
        config = config;
        active_config = active_config;
        active = true;
        impl = null_watchdog;
      } in
      let on_as_before : switched_on driver get_impl equal w ≡ (true, w) =
        else_branch (not (is_off config.mode) && is_off active_config.mode) _ _
          (ground (arith, on)) in
      let as_before : moved_over driver get_impl equal (true, w) ≡ (true, w) =
        else_branch (other_driver driver get_impl equal w) _ _
          (ground (arith, same_driver, same_settings)) in
      let fails : follow_settings driver get_impl equal (true, w) ≡ w =
        then_branch (not (eqb_ℤ (timeout config) (timeout active_config))) _ _
          (ground (arith, changed)) in
      elim (Bool-cases (same_config equal config active_config)) [
        | inl e ↦ rw e refl
        | inr e ↦
            else_branch (same_config equal config active_config) w _ e
            ∙ ap (λ v. follow_settings driver get_impl equal (moved_over driver get_impl equal v))
                on_as_before
            ∙ ap (follow_settings driver get_impl equal) as_before
            ∙ fails
      ]
