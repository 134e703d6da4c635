-- ===== src/SignalStatus.antt =====
-- src/liblgx/src/SignalStatus.h and SignalStatus.cpp: what the register snapshot of the HDMI receiver
-- says. A bit test is a division and a remainder. `refreshHz` and the text of `describe` are not
-- modelled: they are floating-point numbers and printf.
pub mod Same
pub mod Poll
mod Tests
use lgx2userspace.Prelude.{
  ℕ, ◌+◌, ◌-◌, ◌*◌, ◌/◌, ◌%◌, ◌^◌, Bool, true, false, not, ◌&&◌, ◌||◌, List, ltb, leb, ◌==◌,
  if◌then◌else◌, Bytes, get_or,
}
use lgx2userspace.CapturePipeline.{InputState, signal, no_signal, no_cable, protected}

-- `AdvStatusRegisters`
pub record AdvStatusRegisters : Type 0 where
  pub io0c : ℕ
  pub io12 : ℕ
  pub io6a : ℕ
  pub io6f : ℕ
  pub cp_b1 : ℕ
  pub io02 : ℕ
  pub io60 : ℕ
  pub avi01 : ℕ
  pub hdmi05to0c : Bytes
  pub hdmi20to25 : Bytes
  pub hdmi2ato35 : Bytes
  pub hdmi3b : ℕ
  pub have_front_end : Bool
  pub front_end_rx_cf : ℕ

pub data ColourFormat : Type 0 where
  unknown_format rgb ycbcr422 ycbcr444 ycbcr420 : ColourFormat

-- The number of the enumerator.
abbrev pub format_code : ColourFormat → ℕ
format_code unknown_format = 0
format_code rgb = 1
format_code ycbcr422 = 2
format_code ycbcr444 = 3
format_code ycbcr420 = 4

-- `SignalStatus`
pub record SignalStatus : Type 0 where
  pub cable_detected : Bool
  pub tmds_clock_detected : Bool
  pub tmds_locked : Bool
  pub stdi_valid : Bool
  pub powered_down : Bool
  pub hdmi_mode : Bool
  pub interlaced : Bool
  pub hdcp_encrypted : Bool
  pub colour_format : ColourFormat
  pub input_colour_space : ℕ
  pub width : ℕ
  pub height : ℕ
  pub total_width : ℕ
  pub total_height : ℕ
  pub pixel_clock_hz : ℕ

-- Bit `n` of a register.
abbrev pub bit : ℕ → ℕ → Bool
bit x n = x / 2 ^ n % 2 == 1

-- `read16(&bytes[i], mask)`, for the mask `modulus - 1`.
abbrev pub read16 : Bytes → ℕ → ℕ → ℕ
read16 bytes i modulus = (get_or bytes i 0 * 256 + get_or bytes (i + 1) 0) % modulus

-- `FORMATS[i]`
abbrev pub format_of : ℕ → ColourFormat
format_of i =
    if i == 0 then rgb else if i == 1 then ycbcr422 else if i == 2 then ycbcr444 else ycbcr420

-- The pixel clock: the TMDS clock of `h` and the fraction, less deep colour and pixel repetition.
unfoldable pub clock_of : Bytes → ℕ → Bool → ℕ
clock_of h fraction hdmi =
    let tmds = (get_or h 1 0 * 1_000_000 + fraction / 2 ^ 4 % 4 * 250_000) % 2 ^ 32 in
    let bits_per_channel = get_or h 6 0 / 2 ^ 5 % 4 * 2 + 8 in
    let pixel_repetition = get_or h 0 0 % 2 ^ 4 + 1 in
    if hdmi then tmds * 8 / bits_per_channel / pixel_repetition % 2 ^ 32 else tmds

-- `decode`
unfoldable pub decode : AdvStatusRegisters → SignalStatus
decode regs =
    let h = regs.hdmi05to0c in
    let hp = regs.hdmi20to25 in
    let vp = regs.hdmi2ato35 in
    let hdmi = bit (get_or h 0 0) 7 in
    let interlaced = bit regs.io12 4 in
    let width = read16 h 2 0x1000 in
    let field0 = read16 h 4 0x1000 in
    record {
      cable_detected = bit regs.io6f 4;
      tmds_clock_detected = bit regs.io6a 4;
      tmds_locked = regs.io6a / 2 ^ 5 % 8 == 7;
      stdi_valid = bit regs.cp_b1 7;
      powered_down = bit regs.io0c 5 || bit regs.io0c 2;
      hdmi_mode = hdmi;
      interlaced = interlaced;
      hdcp_encrypted =
          (hdmi && bit (get_or h 0 0) 6) || (regs.have_front_end && bit regs.front_end_rx_cf 5);
      colour_format =
          if hdmi && bit regs.io60 0 then format_of (regs.avi01 / 2 ^ 5 % 4) else unknown_format;
      input_colour_space = regs.io02 / 2 ^ 4;
      width = width;
      height = if interlaced then (field0 + read16 h 6 0x1000) % 2 ^ 16 else field0;
      total_width = (read16 hp 0 0x400 + read16 hp 2 0x400 + read16 hp 4 0x400 + width) % 2 ^ 16;
      total_height =
          (read16 vp 0 0x2000 / 2 + read16 vp 4 0x2000 / 2 + read16 vp 8 0x2000 / 2 + field0)
          % 2 ^ 16;
      pixel_clock_hz = clock_of h regs.hdmi3b hdmi;
    }

-- `signalPresent`
unfoldable pub signal_present : SignalStatus → Bool
signal_present s = not s.powered_down && (s.stdi_valid && (s.tmds_locked && s.tmds_clock_detected))

abbrev pub same_bool : Bool → Bool → Bool
same_bool true b = b
same_bool false b = not b

-- The comparison of the timing in `operator==`.
abbrev pub same_timing : SignalStatus → SignalStatus → Bool
same_timing s t =
    same_bool s.hdmi_mode t.hdmi_mode
    && (same_bool s.interlaced t.interlaced
        && (format_code s.colour_format == format_code t.colour_format
            && (s.input_colour_space == t.input_colour_space
                && (s.width == t.width
                    && (s.height == t.height
                        && (s.total_width == t.total_width
                            && (s.total_height == t.total_height
                                && s.pixel_clock_hz / 250_000 == t.pixel_clock_hz / 250_000)))))))

-- `operator==`
unfoldable pub same_status : SignalStatus → SignalStatus → Bool
same_status s t =
    if not (same_bool s.cable_detected t.cable_detected)
      || (not (same_bool (signal_present s) (signal_present t))
          || not (same_bool s.hdcp_encrypted t.hdcp_encrypted))
    then false
    else if not (signal_present s)
    then true
    else same_timing s t

-- `inputStateOf` of src/liblgx/liblgx-usb/src/usb/StatusMonitor.cpp.
unfoldable pub input_state_of : SignalStatus → InputState
input_state_of s =
    if s.cable_detected && s.hdcp_encrypted
    then protected
    else if signal_present s
    then signal
    else if s.cable_detected
    then no_signal
    else no_cable
