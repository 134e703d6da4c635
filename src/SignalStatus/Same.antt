-- ===== src/SignalStatus/Same.antt =====
-- `operator==` and `decode` of src/liblgx/src/SignalStatus.cpp.
use lgx2userspace.Prelude.{◌+◌, ◌*◌, ◌<◌, ◌≡◌, refl, Bool, true, false, arith}
use lgx2userspace.SignalStatus.{
  AdvStatusRegisters, SignalStatus, decode, signal_present, same_bool, same_status, input_state_of,
}

same_bool_eq : (a b : Bool) → same_bool a b ≡ true → a ≡ b
same_bool_eq true true h = refl
same_bool_eq true false h = absurd (ground arith)
same_bool_eq false true h = absurd (ground arith)
same_bool_eq false false h = refl

-- Two statuses that compare equal publish the same input state.
pub same_status-input_state :
    (s t : SignalStatus) → same_status s t ≡ true → input_state_of s ≡ input_state_of t
unfolding same_status input_state_of
same_status-input_state s t h =
    let cable : s.cable_detected ≡ t.cable_detected = same_bool_eq _ _ (ground arith) in
    let present : signal_present s ≡ signal_present t = same_bool_eq _ _ (ground arith) in
    let encrypted : s.hdcp_encrypted ≡ t.hdcp_encrypted = same_bool_eq _ _ (ground arith) in
    simp (cable, present, encrypted) refl

-- The sizes of a decoded status are within what the registers can say, whatever they hold: the total
-- width and height are sums of porches, sync and picture below 2^16, so that the casts of `decode`
-- to 16 bits cut nothing off.
pub decode_fits :
    (regs : AdvStatusRegisters)
    → ((decode regs).width < 0x1000)
      × ((decode regs).height < 2 * 0x1000)
      × ((decode regs).total_width < 3 * 0x400 + 0x1000)
      × ((decode regs).total_height < 3 * 0x1000 + 0x1000)
unfolding decode
decode_fits regs = (omega arith, ground arith, omega arith, omega arith)
