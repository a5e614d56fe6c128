-- ===== src/Frequency/Geometry.antt =====
-- The geometry of the wide channels, and the checks of a complete channel definition.
use wi_fi_test_orchestrator.Prelude.{
  subst, Bool-cases, ℕ, zero, suc, ◌+◌, ◌*◌, ◌/◌, ◌≤◌, ◌<◌, ◌≡◌, refl, ◌⊎◌, inl, inr, List, [], ◌∷◌,
  All, ◌↔◌, ◌||◌, Bool, true, false, not, ◌&&◌, Option, none, some, arith, leb, ◌==◌, if◌then◌else◌,
  elem,
}
use wi_fi_test_orchestrator.Frequency.{
  Band, ghz2_4, ghz5, ghz6, ghz60, ChannelInfo, frequency_to_channel, ChannelDefinition, Result, ok,
  err, ChannelError, definition_in_band, supported_widths, wide_center, capture_channel_definition,
  validate_complete_channel_definition, primary_channels, definition, check_pair,
  channel_frequency_mhz,
}
use wi_fi_test_orchestrator.Frequency.Bounds.{
  frequency_of, frequency_of-frequency_to_channel, last_channel, frequency_to_channel_bounds,
}

-- `p` at the `n` numbers from `k` on.
each_from : (ℕ → Bool) → ℕ → ℕ → Bool
each_from p k zero = true
each_from p k (suc n) = p k && each_from p (suc k) n

each_from-holds :
    (p : ℕ → Bool) (k n x : ℕ) → k ≤ x → x < k + n → each_from p k n ≡ true → p x ≡ true
unfolding each_from
each_from-holds p k zero x low high h = absurd (omega arith)
each_from-holds p k (suc n) x low high h = elim (Bool-cases (x == k)) [
  | inl at ↦ ground (arith, h)
  | inr off ↦ each_from-holds p (suc k) n x (ground arith) (omega arith) (ground (arith, h))
]

-- In units of the channel number, 5 MHz: the 20 MHz of the control channel lie within the block.
abbrev in_block : ℕ → ℕ → Result ℕ → Bool
in_block width channel (ok center) =
    leb (5 * channel + 10) (5 * center + width / 2)
    && leb (5 * center + 10) (5 * channel + width / 2)
    && not (channel == 2)
    && not (center == 2)
in_block width channel (err e) = true

in_block_ghz5_80 : each_from (λ c. in_block 80 c (wide_center ghz5 80 c)) 0 256 ≡ true
unfolding each_from wide_center
in_block_ghz5_80 = refl

in_block_ghz5_160 : each_from (λ c. in_block 160 c (wide_center ghz5 160 c)) 0 256 ≡ true
unfolding each_from wide_center
in_block_ghz5_160 = refl

in_block_ghz6_80 : each_from (λ c. in_block 80 c (wide_center ghz6 80 c)) 0 256 ≡ true
unfolding each_from wide_center
in_block_ghz6_80 = refl

in_block_ghz6_160 : each_from (λ c. in_block 160 c (wide_center ghz6 160 c)) 0 256 ≡ true
unfolding each_from wide_center
in_block_ghz6_160 = refl

-- No other band and no other width has a table of centres.
wide_center_widths :
    (band : Band) (width c center : ℕ)
    → wide_center band width c ≡ ok center
    → ((width ≡ 80) ⊎ (width ≡ 160)) × ((band ≡ ghz5) ⊎ (band ≡ ghz6))
unfolding wide_center
wide_center_widths ghz2_4 width c center h = ground arith
wide_center_widths ghz5 width c center h = ground arith
wide_center_widths ghz6 width c center h = ground arith
wide_center_widths ghz60 width c center h = ground arith

wide_center-in_block :
    (band : Band) (width c center : ℕ)
    → c < 256
    → wide_center band width c ≡ ok center
    → in_block width c (ok center) ≡ true
wide_center-in_block band width c center lt h = go (wide_center_widths band width c center h)
  where
    found : in_block width c (wide_center band width c) ≡ true → in_block width c (ok center) ≡ true
    found = subst (λ r. in_block width c r ≡ true) h

    go :
        ((width ≡ 80) ⊎ (width ≡ 160)) × ((band ≡ ghz5) ⊎ (band ≡ ghz6))
        → in_block width c (ok center) ≡ true
    go (inl w, inl b) =
        found (rw (w, b) (each_from-holds _ 0 256 c (omega arith) lt in_block_ghz5_80))
    go (inl w, inr b) =
        found (rw (w, b) (each_from-holds _ 0 256 c (omega arith) lt in_block_ghz6_80))
    go (inr w, inl b) =
        found (rw (w, b) (each_from-holds _ 0 256 c (omega arith) lt in_block_ghz5_160))
    go (inr w, inr b) =
        found (rw (w, b) (each_from-holds _ 0 256 c (omega arith) lt in_block_ghz6_160))

Result-cases {ℓ} :
    {A : Type ℓ} (r : Result A) → ((a : A) × (r ≡ ok a)) ⊎ ((e : ChannelError) × (r ≡ err e))
Result-cases (ok a) = inl (a, refl)
Result-cases (err e) = inr (e, refl)

-- What a definition says of the frequency, the channel and the width that it was made for.
pub record Covers (band : Band) (f c w : ℕ) (d : ChannelDefinition) : Type 0 where
  pub same_band : d.band ≡ band
  pub same_frequency : d.control_frequency_mhz ≡ f
  pub same_channel : d.primary_channel ≡ c
  pub same_width : d.width_mhz ≡ w
  pub from_below : d.center_frequency_1_mhz + 10 ≤ f + w / 2
  pub from_above : f + 10 ≤ d.center_frequency_1_mhz + w / 2

definition_in_band-Covers :
    (band : Band) (f c w : ℕ) (d : ChannelDefinition)
    → c ≤ last_channel band
    → frequency_of band c ≡ (if f == 5960 then 5935 else f)
    → definition_in_band band f c w ≡ ok d
    → Covers band f c w d
unfolding definition_in_band channel_frequency_mhz
definition_in_band-Covers band f c w d last back h = elim (Result-cases (wide_center band w c)) [
  | inl (z, e) ↦ ground (arith, wide_center-in_block band w c z, wide_center_widths band w c z)
  | inr (x, e) ↦ ground arith
]

-- A definition that is returned names the band that the frequency is mapped to, and the frequency,
-- channel and width that were asked for; and the 20 MHz of the control channel lie within the width
-- around its centre frequency.
pub capture_channel_definition-Covers :
    (f c w : ℕ) (d : ChannelDefinition)
    → capture_channel_definition f c w ≡ ok d
    → (frequency_to_channel f ≡ some (record { channel = c; band = d.band }))
      × Covers d.band f c w d
unfolding capture_channel_definition check_pair
capture_channel_definition-Covers f c w d h = from_pair (frequency_to_channel f) refl h
  where
    from_pair :
        (o : Option ChannelInfo)
        → frequency_to_channel f ≡ o
        → check_pair o f c w ≡ ok d
        → (frequency_to_channel f ≡ some (record { channel = c; band = d.band }))
          × Covers d.band f c w d
    from_pair none e p = absurd (cc p)
    from_pair (some i) e p = ground (
      arith,
      frequency_to_channel_bounds f i,
      frequency_of-frequency_to_channel f i,
      definition_in_band-Covers i.band f c w d,
    )

-- A complete definition is accepted exactly when it is the one that the frequency, the channel and
-- the width determine: its first centre is theirs, and it has no second centre.
pub validate_complete_iff :
    (f c w : ℕ) (center_1 center_2 : Option ℕ) (d : ChannelDefinition)
    → (validate_complete_channel_definition f c w center_1 center_2 ≡ ok d) ↔ (
        (capture_channel_definition f c w ≡ ok d)
        × (center_1 ≡ some d.center_frequency_1_mhz)
        × (center_2 ≡ none))
unfolding validate_complete_channel_definition
validate_complete_iff f c w center_1 center_2 d = ground arith

has_center : ℕ → Bool
has_center c = elim (wide_center ghz5 80 c) [ ok z ↦ true | err e ↦ false ]

has_center_table :
    each_from (λ c. not (elem c (primary_channels ghz5)) || has_center c) 0 256 ≡ true
unfolding each_from wide_center has_center primary_channels
has_center_table = refl

elem-le : (n c : ℕ) (xs : List ℕ) → All (λ x. x ≤ n) xs → elem c xs ≡ true → c ≤ n
elem-le n c [] h e = cc
elem-le n c (x ∷ xs) h e = ground (arith, elem-le n c xs h.1)

primary-le : (c : ℕ) → elem c (primary_channels ghz5) ≡ true → (1 ≤ c) × (c ≤ 177)
unfolding primary_channels
primary-le zero h = absurd (cc h)
primary-le (suc c) h = (omega arith, elem-le 177 (suc c) (primary_channels ghz5) (omega arith) h)

primary-frequency :
    (c : ℕ)
    → 1 ≤ c
    → c ≤ 177
    → frequency_to_channel (5000 + 5 * c) ≡ some (record { channel = c; band = ghz5 })
unfolding frequency_to_channel
primary-frequency c p q = ground arith

-- Every primary channel of 5 GHz has an 80 MHz definition at its own frequency.
pub capture_80_total :
    (c : ℕ)
    → elem c (primary_channels ghz5) ≡ true
    → (d : ChannelDefinition) × (capture_channel_definition (5000 + 5 * c) c 80 ≡ ok d)
unfolding capture_channel_definition definition_in_band channel_frequency_mhz definition
    supported_widths has_center
capture_80_total c h = elim (Result-cases (wide_center ghz5 80 c)) [
  | inl (z, e) ↦ (definition ghz5 c (5000 + 5 * c) 80 (5000 + 5 * z), at_center z e)
  | inr (x, e) ↦ absurd (no_error x e)
]
  where
    range : (1 ≤ c) × (c ≤ 177)
    range = primary-le c h

    at_center :
        (z : ℕ)
        → wide_center ghz5 80 c ≡ ok z
        → capture_channel_definition (5000 + 5 * c) c 80
          ≡ ok (definition ghz5 c (5000 + 5 * c) 80 (5000 + 5 * z))
    at_center z e = ground (arith, range, primary-frequency c range.0 range.1)

    no_error : (x : ChannelError) → wide_center ghz5 80 c ≡ err x → ⊥
    no_error x e =
        ground
          (arith, each_from-holds _ 0 256 c (omega arith) (omega (arith, range)) has_center_table)
