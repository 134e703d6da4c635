-- ===== src/StatusMonitor/Read.antt =====
-- What `readAdvStatus` and a round of the poll of
-- src/liblgx/liblgx-usb/src/usb/StatusMonitor.cpp do with a board that answers.
use lgx2userspace.Prelude.{
  ℕ, ◌≤◌, ◌<◌, ◌≡◌, refl, ap, ◌∙◌, [], arith, if◌then◌else◌, length, get_or,
}
use lgx2userspace.Usb.{Usb, DeviceType, lgx, lgx2, is_lgx2, Board, block}
use lgx2userspace.CommandBridge.{Bridge, Command, ok, ◌>>=◌, i2c_read, drain_responses}
use lgx2userspace.CommandBridge.Answers.{Holds, bind_ok, i2c_read_answers, drain_responses_lem}
use lgx2userspace.SignalStatus.{AdvStatusRegisters}
use lgx2userspace.SignalStatus.Poll.{failed, read, Monitor, poll}
use lgx2userspace.StatusMonitor.{
  info_frame_address, return, read_one, read_adv_status, result_of, drain_failed, poll_bridge,
}

-- The registers of a board that `readAdvStatus` reads.
abbrev pub snapshot : DeviceType → (ℕ → ℕ → ℕ) → AdvStatusRegisters
snapshot type regs = record {
  io0c = regs 0x20 0x0C;
  io12 = regs 0x20 0x12;
  io6a = regs 0x20 0x6A;
  io6f = regs 0x20 0x6F;
  cp_b1 = regs 0x22 0xB1;
  io02 = regs 0x20 0x02;
  io60 = regs 0x20 0x60;
  avi01 = regs (info_frame_address type) 0x01;
  hdmi05to0c = block (regs 0x34) 0x05 8;
  hdmi20to25 = block (regs 0x34) 0x20 6;
  hdmi2ato35 = block (regs 0x34) 0x2A 12;
  hdmi3b = regs 0x34 0x3B;
  have_front_end = is_lgx2 type;
  front_end_rx_cf = if is_lgx2 type then regs 0x58 0xCF else 0;
}

module _ {D : Type 0} (usb : Usb D) (board : Board usb) (fuel : ℕ) where
  -- A command that gets `v` of a board with the registers `regs` and leaves it as it was.
  abbrev Gets : (ℕ → ℕ → ℕ) → {A : Type 0} → Command D A → A → Type 0
  Gets regs m v =
      (b : Bridge D)
      → Holds usb board regs [] b
      → ((m b).0 ≡ ok v) × Holds usb board regs [] (m b).1

  Gets-bind :
      {A B : Type 0} (regs : ℕ → ℕ → ℕ) (m : Command D A) (f : A → Command D B) (v : A) (w : B)
      → Gets regs m v
      → Gets regs (f v) w
      → Gets regs (m >>= f) w
  Gets-bind regs m f v w first next b h =
      let (came, h') = first b h in rw (bind_ok usb board m f b v came) (next (m b).1 h')

  Gets-i2c_read :
      (regs : ℕ → ℕ → ℕ) (address reg count : ℕ)
      → count ≤ 1024
      → Gets regs (i2c_read usb address reg count) (block (regs address) reg count)
  Gets-i2c_read regs address reg count fits b (at, empty) =
      let (came, (same, taken)) = i2c_read_answers usb board address reg count b empty fits in
      (came ∙ ap (λ f. ok (block (f address) reg count)) at, (same ∙ at, taken))

  Gets-read_one :
      (regs : ℕ → ℕ → ℕ) (address reg : ℕ)
      → Gets regs (read_one usb fuel address reg) (regs address reg)
  unfolding read_one
  Gets-read_one regs address reg =
      Gets-bind regs (i2c_read usb address reg 1) (λ value. return usb fuel (get_or value 0 0))
        (block (regs address) reg 1) (regs address reg)
        (Gets-i2c_read regs address reg 1 (omega arith)) (λ b h. (refl, h))

  Gets-read_adv_status :
      (type : DeviceType) (regs : ℕ → ℕ → ℕ)
      → Gets regs (read_adv_status usb fuel type) (snapshot type regs)
  unfolding read_adv_status
  Gets-read_adv_status type regs = Gets-bind regs _ _ _ _ (Gets-read_one regs 0x20 0x0C) (
      Gets-bind regs _ _ _ _ (Gets-read_one regs 0x20 0x12) (
        Gets-bind regs _ _ _ _ (Gets-read_one regs 0x20 0x6A) (
          Gets-bind regs _ _ _ _ (Gets-read_one regs 0x20 0x6F) (
            Gets-bind regs _ _ _ _ (Gets-read_one regs 0x22 0xB1) (
              Gets-bind regs _ _ _ _ (Gets-read_one regs 0x20 0x02) (
                Gets-bind regs _ _ _ _ (Gets-read_one regs 0x20 0x60) (
                  Gets-bind regs _ _ _ _ (Gets-read_one regs (info_frame_address type) 0x01) (
                    Gets-bind regs _ _ _ _ (Gets-i2c_read regs 0x34 0x05 8 (omega arith)) (
                      Gets-bind regs _ _ _ _ (Gets-i2c_read regs 0x34 0x20 6 (omega arith)) (
                        Gets-bind regs _ _ _ _ (Gets-i2c_read regs 0x34 0x2A 12 (omega arith)) (
                          Gets-bind regs _ _ _ _ (Gets-read_one regs 0x34 0x3B)
                            (Gets-bind regs _ _ _ _ (front type) (λ b h. (refl, h))))))))))))))
    where
      front :
          (type : DeviceType)
          → Gets regs
              (if is_lgx2 type then read_one usb fuel 0x58 0xCF else return usb fuel 0)
              (if is_lgx2 type then regs 0x58 0xCF else 0)
      front lgx2 = Gets-read_one regs 0x58 0xCF
      front lgx = λ b h. (refl, h)

  -- On a board that answers and has no reply waiting, a round of the poll goes on with the status that
  -- the board's registers tell, and leaves the registers as they were and no reply behind.
  pub poll_bridge_reads :
      (type : DeviceType) (m : Monitor) (b : Bridge D)
      → board.replies b.device ≡ []
      → ((poll_bridge usb fuel type m b).0
          ≡ poll (read (snapshot type (board.register b.device))) m)
        × Holds usb board (board.register b.device) [] (poll_bridge usb fuel type m b).1
  unfolding poll_bridge
  poll_bridge_reads type m b empty =
      let (came, kept) = Gets-read_adv_status type (board.register b.device) b (refl, empty) in
      simp came (refl, kept)

  round_failed :
      (type : DeviceType) (m : Monitor) (b : Bridge D)
      → result_of usb fuel (read_adv_status usb fuel type b).0 ≡ failed
      → poll_bridge usb fuel type m b
        ≡ (poll failed m, drain_responses usb fuel (read_adv_status usb fuel type b).1)
  unfolding poll_bridge
  round_failed type m b fails =
      ap (λ r. (poll r m, drain_failed usb fuel r (read_adv_status usb fuel type b).1)) fails

  -- A round that fails throws the waiting replies away, so that the next round on a board that answers
  -- is not given one of them: it goes on with the status that the registers tell. The fuel of the
  -- drain must exceed the number of the replies that the failed read leaves.
  pub poll_bridge_recovers :
      (type : DeviceType) (m : Monitor) (b : Bridge D)
      → result_of usb fuel (read_adv_status usb fuel type b).0 ≡ failed
      → length (board.replies (read_adv_status usb fuel type b).1.device) < fuel
      → (poll_bridge usb fuel type
          (poll_bridge usb fuel type m b).0
          (poll_bridge usb fuel type m b).1).0
        ≡ poll
            (read (snapshot type (board.register (read_adv_status usb fuel type b).1.device)))
            (poll failed m)
  poll_bridge_recovers type m b fails enough =
      let b' = (read_adv_status usb fuel type b).1 in
      let (same, empty) = drain_responses_lem usb board fuel b' enough in
      rw (round_failed type m b fails) (
        (poll_bridge_reads type (poll failed m) (drain_responses usb fuel b') empty).0
        ∙ ap (λ regs. poll (read (snapshot type regs)) (poll failed m)) same)
