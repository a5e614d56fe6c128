-- ===== src/Frequency/Tests.antt =====
-- The theorems on frequencies and channels at concrete inputs.
use wi_fi_test_orchestrator.Prelude.{ℕ, ◌≤◌, ◌≡◌, ◌↔◌, refl, some, none, ◌==◌, if◌then◌else◌}
use wi_fi_test_orchestrator.Prelude.{Option}
use wi_fi_test_orchestrator.Prelude.Table.{select}
use wi_fi_test_orchestrator.Frequency.{
  ghz5, ghz6, ChannelDefinition, ok, frequency_to_channel, capture_channel_definition,
  validate_complete_channel_definition, wide_center, supported_widths, channel_frequency_mhz,
  primary_channels,
}
use wi_fi_test_orchestrator.Frequency.Windows.{windows_frequency_to_channel}
use wi_fi_test_orchestrator.Frequency.Bounds.{
  frequency_to_channel_bounds, frequency_of, frequency_of-frequency_to_channel, on_windows,
  windows-eq-linux,
}
use wi_fi_test_orchestrator.Frequency.Geometry.{
  Covers, capture_channel_definition-Covers, validate_complete_iff, capture_80_total,
}

-- Channel 36 with 80 MHz.
abbrev channel_36 : ChannelDefinition
channel_36 = record {
  band = ghz5;
  primary_channel = 36;
  control_frequency_mhz = 5180;
  width_mhz = 80;
  center_frequency_1_mhz = 5210;
  center_frequency_2_mhz = none;
}

frequency_to_channel_bounds_example : (1 ≤ 36) × (36 ≤ 179)
unfolding frequency_to_channel
frequency_to_channel_bounds_example =
    frequency_to_channel_bounds 5180 (record { channel = 36; band = ghz5 }) refl

frequency_of-frequency_to_channel_example :
    frequency_of ghz6 2 ≡ (if 5960 == 5960 then 5935 else 5960)
unfolding frequency_to_channel
frequency_of-frequency_to_channel_example =
    frequency_of-frequency_to_channel 5960 (record { channel = 2; band = ghz6 }) refl

windows-eq-linux_example :
    windows_frequency_to_channel 5180 ≡ on_windows 5180 (frequency_to_channel 5180)
windows-eq-linux_example = windows-eq-linux 5180

captured : capture_channel_definition 5180 36 80 ≡ ok channel_36
unfolding capture_channel_definition frequency_to_channel wide_center select supported_widths
    primary_channels channel_frequency_mhz
captured = refl

capture_channel_definition-Covers_example :
    (frequency_to_channel 5180 ≡ some (record { channel = 36; band = ghz5 }))
    × Covers ghz5 5180 36 80 channel_36
capture_channel_definition-Covers_example =
    capture_channel_definition-Covers 5180 36 80 channel_36 captured

validate_complete_iff_example :
    (validate_complete_channel_definition 5180 36 80 (some 5210) none ≡ ok channel_36) ↔ (
      (capture_channel_definition 5180 36 80 ≡ ok channel_36)
      × (◌≡◌ {A = Option ℕ} (some 5210) (some 5210))
      × (◌≡◌ {A = Option ℕ} none none))
validate_complete_iff_example = validate_complete_iff 5180 36 80 (some 5210) none channel_36

capture_80_total_example : (d : ChannelDefinition) × (capture_channel_definition 5180 36 80 ≡ ok d)
unfolding primary_channels
capture_80_total_example = capture_80_total 36 refl
