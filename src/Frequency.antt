-- ===== src/Frequency.antt =====
-- agents/desktop/src/wto_desktop_agent/platforms/linux/frequency.py, and the Windows mapper
-- platforms/windows/frequency.py in the child `Windows`. Frequencies, channels and widths are
-- naturals: a negative frequency passes no range test of either mapper. A subtraction below stands
-- behind the test that keeps it from passing 0.
mod Channels
pub mod Windows
pub mod Bounds
pub mod Geometry
mod Tests
unfoldable pub use Channels.{frequency_to_channel}
pub use Channels.{Band, ghz2_4, ghz5, ghz6, ghz60, ChannelInfo}
use wi_fi_test_orchestrator.Prelude.{
  ℕ, zero, suc, ◌+◌, ◌-◌, ◌*◌, String, Bool, true, false, not, ◌&&◌, Option, none, some, List, [],
  ◌∷◌, ◌++◌, map, ◌==◌, is_none, is_some, coalesce, if◌then◌else◌, elem,
}
use wi_fi_test_orchestrator.Prelude.Table.{select}

-- The messages of the `ValueError`s that the module raises, one constructor for each.
pub data ChannelError : Type 0 where
  not_matching_pair width_unsupported not_primary channel_2_width no_geometry not_one_block :
      ChannelError
  lacks_center_1 has_center_2 center_1_inconsistent wide_band_only width_token_unknown :
      ChannelError

pub data Result {ℓ} (A : Type ℓ) : Type ℓ where
  ok : A → Result A
  err : ChannelError → Result A

-- A `ValueError` ends the function that raises it, unless it is caught.
infixl 5 ◌>>=◌ ◌>>◌
abbrev pub ◌>>=◌ : {A B : Type 0} → Result A → (A → Result B) → Result B
err e >>= next = err e
ok value >>= next = next value

abbrev pub ◌>>◌ : {B : Type 0} → Result (Unit {0}) → Result B → Result B
check >> next = check >>= λ _. next

abbrev pub raise_if : Bool → ChannelError → Result (Unit {0})
raise_if true e = err e
raise_if false e = ok tt

pub record ChannelDefinition : Type 0 where
  pub band : Band
  pub primary_channel : ℕ
  pub control_frequency_mhz : ℕ
  pub width_mhz : ℕ
  pub center_frequency_1_mhz : ℕ
  pub center_frequency_2_mhz : Option ℕ

abbrev supported_capture_widths_mhz : List ℕ
supported_capture_widths_mhz = 20 ∷ 80 ∷ 160 ∷ []

-- `SUPPORTED_WIDTHS_BY_BAND`
supported_widths : Band → List ℕ
supported_widths ghz2_4 = 20 ∷ []
supported_widths ghz5 = supported_capture_widths_mhz
supported_widths ghz6 = supported_capture_widths_mhz
supported_widths ghz60 = []

-- `range(first, first + n * step, step)`, by its number of items.
range_by : ℕ → ℕ → ℕ → List ℕ
range_by first step zero = []
range_by first step (suc n) = first ∷ range_by (first + step) step n

five_ghz_primary_channels : List ℕ
unfolding range_by
five_ghz_primary_channels = range_by 36 4 8 ++ range_by 100 4 12 ++ range_by 149 4 8

six_ghz_primary_channels : List ℕ
unfolding range_by
six_ghz_primary_channels = 2 ∷ range_by 1 4 59

-- `_primary_channels`
pub primary_channels : Band → List ℕ
unfolding five_ghz_primary_channels six_ghz_primary_channels range_by
primary_channels ghz2_4 = range_by 1 1 14
primary_channels ghz5 = five_ghz_primary_channels
primary_channels ghz6 = six_ghz_primary_channels
primary_channels ghz60 = []

-- `_WIDE_CENTERS_BY_BAND_AND_WIDTH.get((band, width))`
wide_centers : Band → ℕ → Option (List ℕ)
unfolding range_by
wide_centers ghz5 w =
    if w == 80
    then some (42 ∷ 58 ∷ 106 ∷ 122 ∷ 138 ∷ 155 ∷ 171 ∷ [])
    else if w == 160
    then some (50 ∷ 114 ∷ 163 ∷ [])
    else none
wide_centers ghz6 w =
    if w == 80 then some (range_by 7 16 14) else if w == 160 then some (range_by 15 32 7) else none
wide_centers _ w = none

-- A signed offset of a primary channel from the centre of its block.
pub data Offset : Type 0 where
  minus plus : ℕ → Offset

-- `center + offset`. Every centre is above the largest offset of its width.
abbrev shift : ℕ → Offset → ℕ
shift center (minus k) = center - k
shift center (plus k) = center + k

-- `_PRIMARY_OFFSETS_BY_WIDTH.get(width)`
primary_offsets : ℕ → Option (List Offset)
primary_offsets w =
    if w == 80
    then some (minus 6 ∷ minus 2 ∷ plus 2 ∷ plus 6 ∷ [])
    else if w == 160
    then some (minus 14 ∷ minus 10 ∷ minus 6 ∷ minus 2 ∷ plus 2 ∷ plus 6 ∷ plus 10 ∷ plus 14 ∷ [])
    else none

-- `_channel_frequency_mhz`
channel_frequency_mhz : Band → ℕ → Result ℕ
channel_frequency_mhz ghz5 channel = ok (5000 + 5 * channel)
channel_frequency_mhz ghz6 channel = ok (if channel == 2 then 5935 else 5950 + 5 * channel)
channel_frequency_mhz _ channel = err wide_band_only

-- The centres whose block holds the channel: the comprehension `matching`.
matching_centers : ℕ → List Offset → List ℕ → List ℕ
unfolding select
matching_centers channel offsets = select (λ center. elem channel (map (shift center) offsets))

-- `len(matching) != 1`, and `matching[0]`
only_one : List ℕ → Result ℕ
only_one (center ∷ []) = ok center
only_one _ = err not_one_block

block_of : ℕ → Option (List Offset) → Option (List ℕ) → Result ℕ
unfolding matching_centers only_one
block_of channel (some offsets) (some centers) = only_one (matching_centers channel offsets centers)
block_of channel _ _ = err no_geometry

-- The centre channel of the 80 or 160 MHz block of a control channel.
wide_center : Band → ℕ → ℕ → Result ℕ
unfolding block_of wide_centers primary_offsets
wide_center band width channel = block_of channel (primary_offsets width) (wide_centers band width)

definition : Band → ℕ → ℕ → ℕ → ℕ → ChannelDefinition
definition band channel frequency width center = record {
  band = band;
  primary_channel = channel;
  control_frequency_mhz = frequency;
  width_mhz = width;
  center_frequency_1_mhz = center;
  center_frequency_2_mhz = none;
}

-- `capture_channel_definition`, once the channel is known to match the frequency.
definition_in_band : Band → ℕ → ℕ → ℕ → Result ChannelDefinition
unfolding definition
definition_in_band band frequency channel width = do
  raise_if (not (elem width (supported_widths band))) width_unsupported
  raise_if (not (elem channel (primary_channels band))) not_primary
  raise_if (frequency == 5935 && not (width == 20)) channel_2_width
  if width == 20 then ok (definition band channel frequency width frequency) else (do
    center ← wide_center band width channel
    center_frequency ← channel_frequency_mhz band center
    ok (definition band channel frequency width center_frequency))

check_pair : Option ChannelInfo → ℕ → ℕ → ℕ → Result ChannelDefinition
unfolding definition_in_band
check_pair none frequency channel width = err not_matching_pair
check_pair (some information) frequency channel width =
    if information.channel == channel
    then definition_in_band information.band frequency channel width
    else err not_matching_pair

pub capture_channel_definition : ℕ → ℕ → ℕ → Result ChannelDefinition
unfolding check_pair
capture_channel_definition frequency channel width =
    check_pair (frequency_to_channel frequency) frequency channel width

pub validate_complete_channel_definition :
    ℕ → ℕ → ℕ → Option ℕ → Option ℕ → Result ChannelDefinition
validate_complete_channel_definition frequency channel width center_1 center_2 = do
  expected ← capture_channel_definition frequency channel width
  raise_if (is_none center_1) lacks_center_1
  raise_if (is_some center_2) has_center_2
  raise_if (not (coalesce center_1 0 == expected.center_frequency_1_mhz)) center_1_inconsistent
  ok expected

pub validate_frequency_channel_width : ℕ → ℕ → ℕ → Result ChannelInfo
validate_frequency_channel_width frequency channel width = do
  found ← capture_channel_definition frequency channel width
  ok (record { channel = found.primary_channel; band = found.band })

-- `iw_width_token`, over `IW_WIDTH_TOKENS`
pub iw_width_token : ℕ → Result String
iw_width_token width =
    if width == 20
    then ok "HT20"
    else if width == 80
    then ok "80"
    else if width == 160
    then ok "160"
    else err width_token_unknown
