-- ===== src/Watchdog/Activation.antt =====
-- What an activation promises.
use mathlib.Core.Path.{subst}
use system_design_hse_miem.Prelude.{
  Bool, true, false, not, ◌&&◌, Option, none, some, if◌then◌else◌, ◌≡◌, refl, arith, Bool-cases,
  inl, inr, ◌⊎◌, ap, ◌∙◌, sym, then_branch, else_branch,
}
use system_design_hse_miem.Prelude.Int.{ℤ, pos, ◌≤ℤ◌, ltb_ℤ, eqb_ℤ, eq_of_parts}
use system_design_hse_miem.Watchdog.Settings.{WatchdogConfig, is_required, timeout, timing_slack}
use system_design_hse_miem.Watchdog.Device.{
  Driver, Impl, null_watchdog, device, impl_open, impl_close, impl_has_set_timeout,
  impl_can_be_disabled, impl_is_running, impl_timeout,
}
use system_design_hse_miem.Watchdog.Guard.{
  Watchdog, too_short, set_if, known_safe, verdict, checked_timeout, after_set, set_timeout_of,
  opened, or_null_impl, set_up, is_too_long, is_safe, try_activate, activate,
}

some_injective {ℓ} : {A : Type ℓ} {a b : A} → some a ≡ some b → a ≡ b
some_injective e = cc

not_ltb : (a b : ℤ) → ltb_ℤ a b ≡ false → b ≤ℤ a
not_ltb a b h = ground arith

not_too_long : (n t : ℤ) → (not (eqb_ℤ n (pos 0)) && ltb_ℤ t n) ≡ false → (n ≡ pos 0) ⊎ (n ≤ℤ t)
not_too_long n t h = elim (Bool-cases (eqb_ℤ n (pos 0))) [
  | inl e ↦ inl (eq_of_parts n (pos 0) (ground (arith, e)))
  | inr e ↦ inr (ground (arith, e, h))
]

module _ {Device : Type 0} (driver : Driver Device) where
  -- A device runs, and resets the machine in time.
  abbrev pub IsGuarded : WatchdogConfig → Impl Device × Option ℤ → Type 0
  IsGuarded config r = (impl_is_running driver r.0 ≡ true) × (is_too_long driver config r.1 ≡ false)

  is_safe→IsGuarded :
      (config : WatchdogConfig) (r : Impl Device × Option ℤ)
      → is_required config.mode ≡ true
      → is_safe driver config r ≡ true
      → IsGuarded config r
  is_safe→IsGuarded config r must h = ground (arith, must, h)

  -- The time-out that was checked is the device's.
  abbrev pub IsMeasured : Impl Device × Option ℤ → Type 0
  IsMeasured r =
      ((n : ℤ) × (r.1 ≡ some n) × (impl_timeout driver r.0 ≡ some n)) ⊎ (r.0 ≡ null_watchdog)

  or_null-IsMeasured :
      (o : Option (Impl Device × Option ℤ))
      → ((r : Impl Device × Option ℤ) → o ≡ some r → IsMeasured r)
      → IsMeasured (or_null_impl driver o)
  or_null-IsMeasured none h = inr refl
  or_null-IsMeasured (some r) h = h r refl

  closed-IsMeasured :
      (o : Option (Impl Device)) (r : Impl Device × Option ℤ)
      → (elim o [ none ↦ none | some i ↦ some (null_watchdog, none) ]) ≡ some r
      → IsMeasured r
  closed-IsMeasured none r e = absurd (cc e)
  closed-IsMeasured (some i) r e = subst IsMeasured (some_injective e) (inr refl)

  short-IsMeasured :
      (impl : Impl Device) (n : ℤ) (o : Option Bool) (r : Impl Device × Option ℤ)
      → impl_timeout driver impl ≡ some n
      → too_short driver impl n o ≡ some r
      → IsMeasured r
  short-IsMeasured impl n none r m e = absurd (cc e)
  short-IsMeasured impl n (some true) r m e = closed-IsMeasured (impl_close driver impl) r e
  short-IsMeasured impl n (some false) r m e =
      subst IsMeasured (some_injective e) (inl (n, refl, m))

  checked-IsMeasured :
      (config : WatchdogConfig) (impl : Impl Device) (o : Option ℤ) (r : Impl Device × Option ℤ)
      → impl_timeout driver impl ≡ o
      → checked_timeout driver config impl o ≡ some r
      → IsMeasured r
  checked-IsMeasured config impl none r m e = absurd (cc e)
  checked-IsMeasured config impl (some n) r m e =
      elim (Bool-cases (impl_is_running driver impl && ltb_ℤ n config.loop_wait)) [
        | inl short ↦
            short-IsMeasured impl n (impl_can_be_disabled driver impl) r m
              (sym (then_branch _ _ _ short) ∙ e)
        | inr long ↦
            subst IsMeasured (some_injective (sym (else_branch _ _ _ long) ∙ e)) (inl (n, refl, m))
      ]

  after-IsMeasured :
      (config : WatchdogConfig) (o : Option (Impl Device)) (r : Impl Device × Option ℤ)
      → after_set driver config o ≡ some r
      → IsMeasured r
  after-IsMeasured config none r e = absurd (cc e)
  after-IsMeasured config (some impl) r e =
      checked-IsMeasured config impl (impl_timeout driver impl) r refl e

  opened-IsMeasured :
      (config : WatchdogConfig) (o : Option (Impl Device)) (r : Impl Device × Option ℤ)
      → opened driver config o ≡ some r
      → IsMeasured r
  opened-IsMeasured config none r e = absurd (cc e)
  opened-IsMeasured config (some impl) r e =
      after-IsMeasured config (set_if driver config impl (impl_has_set_timeout driver impl)) r
        (unfold set_timeout_of in e)

  set_up-IsMeasured :
      (config : WatchdogConfig) (impl : Impl Device) → IsMeasured (set_up driver config impl)
  set_up-IsMeasured config impl = or_null-IsMeasured _ λ r e.
      opened-IsMeasured config
        (impl_open driver (if ltb_ℤ (timing_slack config) (pos 0) then null_watchdog else impl)) r e

  -- With a negative slack no device is opened.
  set_up_tight :
      (config : WatchdogConfig) (impl : Impl Device)
      → ltb_ℤ (timing_slack config) (pos 0) ≡ true
      → impl_is_running driver (set_up driver config impl).0 ≡ false
  unfolding set_timeout_of
  set_up_tight config impl tight = rw tight refl

  running→device :
      (config : WatchdogConfig) (r : Impl Device × Option ℤ)
      → IsMeasured r
      → IsGuarded config r
      → (d : Device) × (n : ℤ) × (r.0 ≡ device d)
        × (driver.is_running d ≡ true)
        × (driver.get_timeout d ≡ some n)
        × ((n ≡ pos 0) ⊎ (n ≤ℤ timeout config))
  running→device config (null_watchdog, n) m guarded = absurd (cc guarded.0)
  running→device config (device d, o) (inl (n, asked, told)) guarded = (
    d,
    n,
    refl,
    guarded.0,
    told,
    not_too_long n (timeout config) (sym (ap (is_too_long driver config) asked) ∙ guarded.1),
  )
  running→device config (device d, o) (inr e) guarded = absurd (cc e)

  known_safe-eq :
      (config : WatchdogConfig) (r : Impl Device × Option ℤ) (o : Option Bool)
      → known_safe driver config r o ≡ some true
      → is_safe driver config r ≡ true
  known_safe-eq config r none h = absurd (cc h)
  known_safe-eq config r (some b) h = some_injective h

  verdict-eq :
      (config : WatchdogConfig) (r : Impl Device × Option ℤ)
      → verdict driver config r ≡ some true
      → is_safe driver config r ≡ true
  verdict-eq config r h = elim (Bool-cases (impl_is_running driver r.0)) [
    | inl e ↦
        known_safe-eq config r (impl_can_be_disabled driver r.0)
          (sym (then_branch (impl_is_running driver r.0) _ _ e) ∙ h)
    | inr e ↦ some_injective (sym (else_branch (impl_is_running driver r.0) _ _ e) ∙ h)
  ]

  slack_of :
      (w : Watchdog Device)
      → impl_is_running driver (set_up driver w.config w.impl).0 ≡ true
      → pos 0 ≤ℤ timing_slack w.config
  slack_of w running = elim (Bool-cases (ltb_ℤ (timing_slack w.config) (pos 0))) [
    | inl tight ↦ absurd (cc (set_up_tight w.config w.impl tight, running))
    | inr e ↦ not_ltb (timing_slack w.config) (pos 0) e
  ]

  -- If the activation of a required watchdog returns `True`, then the slack of the settings is not
  -- negative, and a device runs that answers with its time-out, which, unless it is 0, is not above
  -- that of the settings.
  pub activate-IsGuarded :
      (w : Watchdog Device)
      → is_required w.config.mode ≡ true
      → (activate driver w).0 ≡ some true
      → (pos 0 ≤ℤ timing_slack w.config)
        × ((d : Device) × (n : ℤ) × ((activate driver w).1.impl ≡ device d)
            × (driver.is_running d ≡ true)
            × (driver.get_timeout d ≡ some n)
            × ((n ≡ pos 0) ⊎ (n ≤ℤ timeout w.config)))
  unfolding activate try_activate
  activate-IsGuarded w must h =
      let r = set_up driver w.config w.impl in
      let guarded = is_safe→IsGuarded w.config r must (verdict-eq w.config r h) in
      (slack_of w guarded.0, running→device w.config r (set_up-IsMeasured w.config w.impl) guarded)
