-- ===== src/Watchdog/Settings.antt =====
-- `WatchdogConfig`: the settings, and the time-outs that follow from them.
use text.Mathlib.Text.{◌==◌}
use system_design_hse_miem.Prelude.{
  ◌/◌, String, Bool, true, false, not, ◌&&◌, ◌||◌, Option, none, some, if◌then◌else◌,
}
use system_design_hse_miem.Prelude.Int.{ℤ, pos, negsuc, ◌-ℤ◌, eqb_ℤ}
use system_design_hse_miem.Collections.{Casing}
use system_design_hse_miem.Values.{
  Value, integer, str, Fields, no_fields, field, dict, lookup, lookup_or, filter_fields,
}
use system_design_hse_miem.Ha.Answers.{number_in}

pub data Mode : Type 0 where
  required automatic off : Mode

abbrev pub is_required : Mode → Bool
is_required required = true
is_required _ = false

abbrev pub is_off : Mode → Bool
is_off off = true
is_off _ = false

abbrev pub same_mode : Mode → Mode → Bool
same_mode required required = true
same_mode automatic automatic = true
same_mode off off = true
same_mode _ _ = false

-- The mode that a word in lower case stands for.
abbrev pub mode_of : String → Mode
mode_of s =
    if s == "require" || s == "required"
    then required
    else if s == "auto" || s == "automatic"
    then automatic
    else off

-- `ttl`, `loop_wait` and `safety_margin` are numbers of seconds.
pub record WatchdogConfig : Type 0 where
  pub mode : Mode
  pub ttl : ℤ
  pub loop_wait : ℤ
  pub safety_margin : ℤ
  pub driver : Value
  pub driver_config : Fields

-- `n // 2`, which rounds down
abbrev pub half : ℤ → ℤ
half (pos n) = pos (n / 2)
half (negsuc n) = negsuc (n / 2)

unfoldable pub timeout : WatchdogConfig → ℤ
timeout config =
    if eqb_ℤ config.safety_margin (negsuc 0)
    then half config.ttl
    else config.ttl -ℤ config.safety_margin

unfoldable pub timing_slack : WatchdogConfig → ℤ
unfolding timeout
timing_slack config = timeout config -ℤ config.loop_wait

abbrev pub is_own_setting : String → Bool
is_own_setting k = k == "mode" || k == "safety_margin" || k == "driver"

-- `config.get("watchdog") or {'mode': 'automatic'}`
abbrev pub section_of : Value → Fields
section_of (dict (field k v fs)) = field k v fs
section_of _ = field "mode" (str "automatic") no_fields

-- `==`; two values are compared by Python.
unfoldable pub same_config : (Value → Value → Bool) → WatchdogConfig → WatchdogConfig → Bool
same_config equal a b =
    same_mode a.mode b.mode
    && eqb_ℤ a.ttl b.ttl
    && eqb_ℤ a.loop_wait b.loop_wait
    && eqb_ℤ a.safety_margin b.safety_margin
    && equal a.driver b.driver
    && equal (dict a.driver_config) (dict b.driver_config)

module _ ⦃c : Casing⦄ where
  -- `str(mode).lower()` of a value that is no text is none of the words.
  unfoldable pub parse_mode : Value → Mode
  parse_mode (str s) = mode_of (c.lower s)
  parse_mode _ = off

  abbrev pub config_with : Fields → Option ℤ → Option ℤ → Option ℤ → Option WatchdogConfig
  config_with fs (some t) (some w) (some m) = some record {
    mode = parse_mode (lookup_or "mode" (str "automatic") fs);
    ttl = t;
    loop_wait = w;
    safety_margin = m;
    driver = lookup_or "driver" (str "default") fs;
    driver_config = filter_fields (λ k v. not (is_own_setting k)) fs;
  }
  config_with fs _ _ _ = none

  -- `__init__`; `none` is an exception, for a setting that is no number.
  unfoldable pub config_of : Fields → Option WatchdogConfig
  unfolding parse_mode
  config_of fs =
      let section = section_of (lookup "watchdog" fs) in
      config_with section (number_in (lookup "ttl" fs)) (number_in (lookup "loop_wait" fs))
        (number_in (lookup_or "safety_margin" (integer (pos 5)) section))
