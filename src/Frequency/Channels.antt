-- ===== src/Frequency/Channels.antt =====
-- `frequency_to_channel` of agents/desktop/src/wto_desktop_agent/platforms/linux/frequency.py.
use wi_fi_test_orchestrator.Prelude.{
  ℕ, ◌-◌, ◌/◌, ◌%◌, ◌&&◌, Option, none, some, leb, ◌==◌, if◌then◌else◌,
}

pub data Band : Type 0 where
  ghz2_4 ghz5 ghz6 ghz60 : Band

-- `LinuxChannelInfo`
pub record ChannelInfo : Type 0 where
  pub channel : ℕ
  pub band : Band

abbrev pub info : ℕ → Band → ChannelInfo
info c b = record { channel = c; band = b }

-- The tests behind the 5 GHz block, which falls through to them where its channel is out of range.
above_5_ghz : ℕ → Option ChannelInfo
above_5_ghz f =
    if f == 5935
    then some (info 2 ghz6)
    else if leb 5955 f && leb f 7115 && (f - 5950) % 5 == 0
    then some (info ((f - 5950) / 5) ghz6)
    else if leb 58320 f && leb f 69120 && (f - 56160) % 2160 == 0
    then some (info ((f - 56160) / 2160) ghz60)
    else none

unfoldable pub frequency_to_channel : ℕ → Option ChannelInfo
unfolding above_5_ghz
frequency_to_channel f =
    if f == 2484
    then some (info 14 ghz2_4)
    else if leb 2412 f && leb f 2472 && (f - 2407) % 5 == 0
    then some (info ((f - 2407) / 5) ghz2_4)
    else if leb 5000 f
        && leb f 5895
        && (f - 5000) % 5 == 0
        && leb 1 ((f - 5000) / 5)
        && leb ((f - 5000) / 5) 179
    then some (info ((f - 5000) / 5) ghz5)
    else above_5_ghz f
