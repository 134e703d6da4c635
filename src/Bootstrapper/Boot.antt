-- ===== src/Bootstrapper/Boot.antt =====
-- The ways through `Bootstrapper::bootstrap` (src/liblgx/liblgx-usb/src/usb/Bootstrapper.cpp) on a
-- board that answers.
use lgx2userspace.Prelude.{ℕ, ◌<◌, ◌≡◌, ◌≢◌, refl, ap, ◌∙◌, true, false, List, [], arith, length}
use lgx2userspace.Usb.{Usb, DeviceType, lgx2, Board, block}
use lgx2userspace.CommandBridge.{Bridge, ok, i2c_read, drain_responses}
use lgx2userspace.CommandBridge.Answers.{Holds, i2c_read_answers, drain_responses_lem}
use lgx2userspace.CommandBridge.Replay.{done, replay}
use lgx2userspace.Bootstrapper.{
  fresh, configured, unknown, board_state_of, BoardState, booted, already_bootstrapped, adv_io,
  pca9539a, read_board_state, detect_board_state, video_already_flowing, replay_commands,
  bootstrap_from, bootstrap,
}
use lgx2userspace.Bootstrapper.Settle.{settled_registers, finish_settles}

-- The state that the registers of a board tell of.
abbrev pub state_in : (ℕ → ℕ → ℕ) → BoardState
state_in regs = board_state_of (regs adv_io 0xFA) (block (regs pca9539a) 0x06 2)

module _ {D : Type 0} (usb : Usb D) (board : Board usb) (fuel : ℕ) where
  read_board_state_lem :
      (b : Bridge D)
      → board.replies b.device ≡ []
      → ((read_board_state usb fuel b).0 ≡ ok (state_in (board.register b.device)))
        × Holds usb board (board.register b.device) [] (read_board_state usb fuel b).1
  unfolding read_board_state
  read_board_state_lem b empty =
      let (edid, (same, taken)) = i2c_read_answers usb board adv_io 0xFA 1 b empty (omega arith) in
      let b' = (i2c_read usb adv_io 0xFA 1 b).1 in
      let (pca, (same', taken')) =
        i2c_read_answers usb board pca9539a 0x06 2 b' taken (omega arith) in
      simp (edid, pca)
        (
          ap
              (λ f.
                ok (
                  board_state_of (board.register b.device adv_io 0xFA) (block (f pca9539a) 0x06 2)))
              same,
          (same' ∙ same, taken'),
        )

  -- Whatever replies wait, the board is read as what its registers tell, they keep their values, and
  -- no reply is left. The fuel of the drain must exceed the number of the replies.
  pub detect_board_state_lem :
      (b : Bridge D)
      → length (board.replies b.device) < fuel
      → ((detect_board_state usb fuel b).0 ≡ state_in (board.register b.device))
        × Holds usb board (board.register b.device) [] (detect_board_state usb fuel b).1
  unfolding detect_board_state
  detect_board_state_lem b enough =
      let (same, empty) = drain_responses_lem usb board fuel b enough in
      let (told, (same', taken)) = read_board_state_lem (drain_responses usb fuel b) empty in
      simp told (ap state_in same, (same' ∙ same, taken))

  module _ (commands : DeviceType → List ℕ) where
    started :
        (state : BoardState) (b : Bridge D)
        → length (board.replies b.device) < fuel
        → state_in (board.register b.device) ≡ state
        → bootstrap usb fuel commands lgx2 b
          ≡ bootstrap_from usb fuel commands lgx2 state (detect_board_state usb fuel b).1
    unfolding bootstrap
    started state b enough told =
        ap (λ s. bootstrap_from usb fuel commands lgx2 s (detect_board_state usb fuel b).1)
          ((detect_board_state_lem b enough).0 ∙ told)

    -- An LGX2 board that still holds its configuration is reused: nothing is replayed, whatever the
    -- recorded commands are and whatever stale replies wait, and only the colour space and the
    -- picture adjustment are set. The fuel of the drain must exceed the number of the replies.
    pub bootstrap_reuses :
        (b : Bridge D)
        → length (board.replies b.device) < fuel
        → board.register b.device adv_io 0xFA ≡ 0x6C
        → board.register b.device pca9539a 0x06 ≡ 0x00
        → board.register b.device pca9539a 0x07 ≡ 0x09
        → ((bootstrap usb fuel commands lgx2 b).0 ≡ booted true)
          × Holds usb board
              (settled_registers (board.register b.device))
              []
              (bootstrap usb fuel commands lgx2 b).1
    unfolding board_state_of
    bootstrap_reuses b enough edid pca pca' =
        let (told, (same, taken)) = detect_board_state_lem b enough in
        let (ends, (sets, left)) =
          finish_settles usb board fuel true (detect_board_state usb fuel b).1 taken in
        rw (started configured b enough is_configured)
          (ends, (sets ∙ ap settled_registers same, left))
      where
        is_configured : state_in (board.register b.device) ≡ configured
        is_configured = simp (edid, pca, pca') refl

    replay_commands_lem :
        (b : Bridge D)
        → (replay usb (commands lgx2) b.device).0 ≡ done
        → length (board.replies (replay usb (commands lgx2) b.device).1) < fuel
        → ((replay_commands usb fuel commands lgx2 b).0 ≡ booted false)
          × Holds usb board
              (settled_registers (board.register (replay usb (commands lgx2) b.device).1))
              []
              (replay_commands usb fuel commands lgx2 b).1
    unfolding replay_commands
    replay_commands_lem b ends enough =
        let (same, empty) =
          drain_responses_lem usb board fuel
            (record b { device = (replay usb (commands lgx2) b.device).1 }) enough in
        let (back, (sets, left)) = finish_settles usb board fuel false _ empty in
        simp ends (back, (sets ∙ ap settled_registers same, left))

    -- On an LGX2 board with the registers of a reset, whatever stale replies wait, the recorded commands are
    -- replayed. If they reach their end, the replies that they leave are thrown away, and the registers
    -- are those behind the replay with the colour space and the picture adjustment set. The fuel of
    -- the drains must exceed the number of the replies.
    pub bootstrap_replays :
        (b : Bridge D)
        → length (board.replies b.device) < fuel
        → board.register b.device adv_io 0xFA ≢ 0x6C
        → (replay usb (commands lgx2) (detect_board_state usb fuel b).1.device).0 ≡ done
        → length
            (board.replies (replay usb (commands lgx2) (detect_board_state usb fuel b).1.device).1)
          < fuel
        → ((bootstrap usb fuel commands lgx2 b).0 ≡ booted false)
          × Holds usb board
              (settled_registers (
                board.register
                  (replay usb (commands lgx2) (detect_board_state usb fuel b).1.device).1))
              []
              (bootstrap usb fuel commands lgx2 b).1
    unfolding board_state_of
    bootstrap_replays b enough edid ends left =
        rw (started fresh b enough is_fresh)
          (replay_commands_lem (detect_board_state usb fuel b).1 ends left)
      where
        is_fresh : state_in (board.register b.device) ≡ fresh
        is_fresh = ground arith

    -- An LGX2 board that is neither reset nor configured, while its video endpoint does not time out, is
    -- refused: the exception is thrown, nothing is replayed and no register changes. The fuel of the
    -- drain must exceed the number of the replies.
    pub bootstrap_refuses :
        (b : Bridge D)
        → length (board.replies b.device) < fuel
        → state_in (board.register b.device) ≡ unknown
        → (video_already_flowing usb fuel (detect_board_state usb fuel b).1).0 ≡ true
        → ((bootstrap usb fuel commands lgx2 b).0 ≡ already_bootstrapped)
          × Holds usb board (board.register b.device) [] (bootstrap usb fuel commands lgx2 b).1
    unfolding video_already_flowing
    bootstrap_refuses b enough told flowing =
        let (_, (same, taken)) = detect_board_state_lem b enough in
        let law = board.video (detect_board_state usb fuel b).1.device 0x1FC000 100 in
        rw (started unknown b enough told) (simp flowing (refl, (law.1 ∙ same, law.0 ∙ taken)))
