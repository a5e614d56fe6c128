-- ===== src/Frequency/Windows.antt =====
-- agents/desktop/src/wto_desktop_agent/platforms/windows/frequency.py.
use wi_fi_test_orchestrator.Prelude.{
  ℕ, ◌-◌, ◌/◌, ◌%◌, ◌&&◌, Option, none, some, leb, ◌==◌, if◌then◌else◌,
}
use wi_fi_test_orchestrator.Frequency.Channels.{Band, ghz2_4, ghz5, ghz6}

-- `ChannelInfo` of the Windows mapper, which carries its frequency.
pub record WindowsChannelInfo : Type 0 where
  pub frequency_mhz : ℕ
  pub channel : ℕ
  pub band : Band

abbrev info : ℕ → ℕ → Band → Option WindowsChannelInfo
info f c b = some (record { frequency_mhz = f; channel = c; band = b })

unfoldable pub windows_frequency_to_channel : ℕ → Option WindowsChannelInfo
windows_frequency_to_channel f =
    if f == 2484
    then info f 14 ghz2_4
    else if leb 2412 f
        && leb f 2472
        && (f - 2407) % 5 == 0
        && leb 1 ((f - 2407) / 5)
        && leb ((f - 2407) / 5) 13
    then info f ((f - 2407) / 5) ghz2_4
    else if f == 5935
    then info f 2 ghz6
    else if leb 5955 f
        && leb f 7115
        && (f - 5950) % 5 == 0
        && leb 1 ((f - 5950) / 5)
        && leb ((f - 5950) / 5) 233
    then info f ((f - 5950) / 5) ghz6
    else if leb 5000 f
        && leb f 5895
        && (f - 5000) % 5 == 0
        && leb 1 ((f - 5000) / 5)
        && leb ((f - 5000) / 5) 179
    then info f ((f - 5000) / 5) ghz5
    else none
