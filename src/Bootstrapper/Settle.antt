-- ===== src/Bootstrapper/Settle.antt =====
-- The registers that the end of `Bootstrapper::bootstrap` sets
-- (src/liblgx/liblgx-usb/src/usb/Bootstrapper.cpp): the input colour space and the picture adjustment.
use lgx2userspace.Prelude.{
  All, true, ℕ, ◌≡◌, refl, ap, fun_ext, ◌∙◌, Bool, ◌&&◌, inl, inr, List, [], ◌∷◌, arith, ◌==◌,
  Bool-cases,
}
use lgx2userspace.Usb.{Usb, with_register, is_setting, Board}
use lgx2userspace.CommandBridge.{Bridge, i2c_read}
use lgx2userspace.CommandBridge.Answers.{Holds, i2c_read_answers, i2c_write_sets}
use lgx2userspace.Bootstrapper.{
  booted, adv_io, adv_cp, automatic_of, adjustments, set_auto_input_colour_space, reset_adjustment,
  reset_adjustments, finish,
}

-- The registers behind `setAutoInputColourSpace`: the mode is automatic, the other bits are kept.
abbrev pub automatic_registers : (ℕ → ℕ → ℕ) → ℕ → ℕ → ℕ
automatic_registers regs = with_register regs adv_io 0x02 (automatic_of (regs adv_io 0x02))

abbrev pub adjusted_registers : List (ℕ × ℕ) → (ℕ → ℕ → ℕ) → ℕ → ℕ → ℕ
adjusted_registers [] regs = regs
adjusted_registers ((reg, neutral) ∷ rest) regs =
    adjusted_registers rest (with_register regs adv_cp reg neutral)

-- The registers behind `finish`.
abbrev pub settled_registers : (ℕ → ℕ → ℕ) → ℕ → ℕ → ℕ
settled_registers regs = adjusted_registers adjustments (automatic_registers regs)

-- Setting a register to what it holds changes nothing.
kept :
    (regs : ℕ → ℕ → ℕ) (address reg value : ℕ)
    → regs address reg ≡ value
    → regs ≡ with_register regs address reg value
kept regs address reg value holds = fun_ext (λ a. fun_ext (λ r. here a r))
  where
    here : (a r : ℕ) → regs a r ≡ with_register regs address reg value a r
    here a r = elim (Bool-cases ((a == address) && (r == reg))) [
      | inl e ↦ simp e (
          ap (λ x. regs x r) {y = address} (ground arith)
          ∙ ap (regs address) {y = reg} (ground arith)
          ∙ holds)
      | inr e ↦ simp e refl
    ]

module _ {D : Type 0} (usb : Usb D) (board : Board usb) (fuel : ℕ) where
  set_auto_lem :
      (b : Bridge D)
      → board.replies b.device ≡ []
      → Holds usb board
          (automatic_registers (board.register b.device))
          []
          (set_auto_input_colour_space usb fuel b)
  unfolding set_auto_input_colour_space
  set_auto_lem b empty =
      let (came, (same, taken)) = i2c_read_answers usb board adv_io 0x02 1 b empty (omega arith) in
      let value = board.register b.device adv_io 0x02 in
      let b' = (i2c_read usb adv_io 0x02 1 b).1 in
      let (_, (sets, keeps)) = i2c_write_sets usb board adv_io 0x02 (automatic_of value) b' refl in
      simp came (elim (Bool-cases (automatic_of value == value)) [
        | inl e ↦ simp e (
          same ∙ kept (board.register b.device) adv_io 0x02 (automatic_of value) (ground arith),
          taken,
        )
        | inr e ↦
            simp e (
              sets ∙ ap (λ f. with_register f adv_io 0x02 (automatic_of value)) same,
              keeps ∙ taken,
            )
      ])

  reset_adjustment_lem :
      (reg neutral : ℕ) (b : Bridge D)
      → is_setting adv_cp reg ≡ true
      → board.replies b.device ≡ []
      → Holds usb board
          (with_register (board.register b.device) adv_cp reg neutral)
          []
          (reset_adjustment usb fuel reg neutral b)
  unfolding reset_adjustment
  reset_adjustment_lem reg neutral b setting empty =
      let (came, (same, taken)) = i2c_read_answers usb board adv_cp reg 1 b empty (omega arith) in
      let value = board.register b.device adv_cp reg in
      let b' = (i2c_read usb adv_cp reg 1 b).1 in
      let (_, (sets, keeps)) = i2c_write_sets usb board adv_cp reg neutral b' setting in
      simp came (elim (Bool-cases (value == neutral)) [
        | inl e ↦
            simp e (same ∙ kept (board.register b.device) adv_cp reg neutral (ground arith), taken)
        | inr e ↦ simp e (sets ∙ ap (λ f. with_register f adv_cp reg neutral) same, keeps ∙ taken)
      ])

  reset_adjustments_lem :
      (l : List (ℕ × ℕ)) (b : Bridge D)
      → All (λ a. is_setting adv_cp a.0 ≡ true) l
      → board.replies b.device ≡ []
      → Holds usb board
          (adjusted_registers l (board.register b.device))
          []
          (reset_adjustments usb fuel l b)
  unfolding reset_adjustments
  reset_adjustments_lem [] b settings empty = (refl, empty)
  reset_adjustments_lem ((reg, neutral) ∷ rest) b settings empty =
      let (sets, taken) = reset_adjustment_lem reg neutral b settings.0 empty in
      let (then_sets, then_taken) =
        reset_adjustments_lem rest (reset_adjustment usb fuel reg neutral b) settings.1 taken in
      (then_sets ∙ ap (adjusted_registers rest) sets, then_taken)

  -- With no reply waiting, the end of the bootstrap makes the colour space automatic and the picture
  -- adjustment neutral, and changes no other register or bit.
  pub finish_settles :
      (already : Bool) (b : Bridge D)
      → board.replies b.device ≡ []
      → ((finish usb fuel already b).0 ≡ booted already)
        × Holds usb board
            (settled_registers (board.register b.device))
            []
            (finish usb fuel already b).1
  unfolding finish
  finish_settles already b empty =
      let (sets, taken) = set_auto_lem b empty in
      let (adjusts, left) =
        reset_adjustments_lem adjustments (set_auto_input_colour_space usb fuel b)
          (refl, (refl, (refl, (refl, tt)))) taken in
      (refl, (adjusts ∙ ap (adjusted_registers adjustments) sets, left))
