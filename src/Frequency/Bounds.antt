-- ===== src/Frequency/Bounds.antt =====
-- What the frequency mappers return: the ranges of the channels, the way back from a channel to
-- its frequency, and the agreement of the Linux and the Windows mapper.
use wi_fi_test_orchestrator.Prelude.{
  ℕ, ◌+◌, ◌*◌, ◌≤◌, ◌≡◌, Option, none, some, arith, ◌==◌, if◌then◌else◌,
}
use wi_fi_test_orchestrator.Frequency.Windows.{WindowsChannelInfo, windows_frequency_to_channel}
use wi_fi_test_orchestrator.Frequency.{
  Band, ghz2_4, ghz5, ghz6, ghz60, ChannelInfo, frequency_to_channel,
}

-- The channel numbers of each band, from the first to the last.
abbrev pub first_channel : Band → ℕ
first_channel band = 1

abbrev pub last_channel : Band → ℕ
last_channel ghz2_4 = 14
last_channel ghz5 = 179
last_channel ghz6 = 233
last_channel ghz60 = 6

-- The centre frequency that the standard assigns to a channel of a band.
abbrev pub frequency_of : Band → ℕ → ℕ
frequency_of ghz2_4 c = if c == 14 then 2484 else 2407 + 5 * c
frequency_of ghz5 c = 5000 + 5 * c
frequency_of ghz6 c = if c == 2 then 5935 else 5950 + 5 * c
frequency_of ghz60 c = 56160 + 2160 * c

-- A channel that is recognised is a channel number of its band.
pub frequency_to_channel_bounds :
    (f : ℕ) (i : ChannelInfo)
    → frequency_to_channel f ≡ some i
    → (first_channel i.band ≤ i.channel) × (i.channel ≤ last_channel i.band)
unfolding frequency_to_channel
frequency_to_channel_bounds f i h = ground arith

-- A channel that is recognised goes back to the frequency that it was recognised from, but for
-- 5960 MHz, which is taken for the channel 2 of 6 GHz, whose frequency is 5935 MHz.
pub frequency_of-frequency_to_channel :
    (f : ℕ) (i : ChannelInfo)
    → frequency_to_channel f ≡ some i
    → frequency_of i.band i.channel ≡ (if f == 5960 then 5935 else f)
unfolding frequency_to_channel
frequency_of-frequency_to_channel f i h = ground arith steps 10000000

-- What the Windows mapper says of a result of the Linux mapper: it knows no 60 GHz channel.
abbrev pub on_windows : ℕ → Option ChannelInfo → Option WindowsChannelInfo
on_windows f none = none
on_windows f (some i) = elim i.band [
  | ghz60 ↦ none
  | band ↦ some (record { frequency_mhz = f; channel = i.channel; band = band })
]

-- At every frequency the Windows mapper agrees with the Linux mapper below 60 GHz, and returns the
-- frequency that it was given.
pub windows-eq-linux :
    (f : ℕ) → windows_frequency_to_channel f ≡ on_windows f (frequency_to_channel f)
unfolding frequency_to_channel windows_frequency_to_channel
windows-eq-linux f = ground arith
