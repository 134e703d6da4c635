-- ===== src/CommandBridge/Answers.antt =====
-- What the calls of src/liblgx/liblgx-usb/src/usb/CommandBridge.cpp do to a board.
use lgx2userspace.Prelude.{
  ℕ, zero, suc, ◌≤◌, ◌<◌, ◌≡◌, refl, ap, subst, ◌∙◌, true, inl, inr, ◌⊎◌, List, [], ◌∷◌, ◌++◌,
  arith, ◌==◌, Bytes, length, All,
}
use lgx2userspace.Usb.{Usb, block, length-block, with_register, is_setting, Board}
use lgx2userspace.CommandBridge.{
  Bridge, Reply, ok, err, ◌>>=◌, ◌>>◌, on_request, on_command, on_read_request, crypto_read_config,
  and_then, command_max_packet, send, receive, i2c_read, i2c_write, Command, drain_responses_locked,
  drain_responses,
}

module _ {D : Type 0} (usb : Usb D) (board : Board usb) where
  -- The bridge in front of a board with the registers `regs` and the waiting replies `queue`.
  abbrev pub Holds : (ℕ → ℕ → ℕ) → List Bytes → Bridge D → Type 0
  Holds regs queue b = (board.register b.device ≡ regs) × (board.replies b.device ≡ queue)

  pub bind_ok :
      {A B : Type 0} (m : Command D A) (f : A → Command D B) (b : Bridge D) (a : A)
      → (m b).0 ≡ ok a
      → (m >>= f) b ≡ f a (m b).1
  bind_ok m f b a h = simp h refl

  send_read :
      (address reg count : ℕ) (b : Bridge D)
      → count ≤ command_max_packet
      → ((send usb on_request (0x02 ∷ address ∷ 0x01 ∷ count ∷ reg ∷ []) b).0 ≡ ok tt)
        × Holds
            (board.register b.device)
            (board.replies b.device ++ (block (board.register b.device address) reg count ∷ []))
            (send usb on_request (0x02 ∷ address ∷ 0x01 ∷ count ∷ reg ∷ []) b).1
  unfolding send
  send_read address reg count b fits =
      let law = board.read_request b.device address reg count 5000 fits in
      simp (law.0, law.1) (refl, (law.3, law.2))

  -- A reply of `count` bytes that waits alone is taken, and the board is as before.
  receive_waiting :
      (q : Bytes) (count : ℕ) (b : Bridge D)
      → board.replies b.device ≡ q ∷ []
      → length q ≡ count
      → count ≤ command_max_packet
      → ((receive usb count b).0 ≡ ok q)
        × Holds (board.register b.device) [] (receive usb count b).1
  unfolding receive
  receive_waiting q count b waits size fits =
      let law = board.reply b.device q [] 1024 5000 waits (omega arith) in
      let same : (length q == count) ≡ true = ground arith in
      simp (law.0, law.1, same) (refl, (law.3, law.2))

  -- With no reply waiting, a read of registers returns what stands in them, takes its own reply and
  -- leaves the board as it was.
  pub i2c_read_answers :
      (address reg count : ℕ) (b : Bridge D)
      → board.replies b.device ≡ []
      → count ≤ command_max_packet
      → ((i2c_read usb address reg count b).0
          ≡ ok (block (board.register b.device address) reg count))
        × Holds (board.register b.device) [] (i2c_read usb address reg count b).1
  unfolding i2c_read
  i2c_read_answers address reg count b empty fits =
      let (sent, (same, queued)) = send_read address reg count b fits in
      let took =
        receive_waiting (block (board.register b.device address) reg count) count
          (send usb on_request (0x02 ∷ address ∷ 0x01 ∷ count ∷ reg ∷ []) b).1
          (queued ∙ ap (λ l. l ++ (block (board.register b.device address) reg count ∷ [])) empty)
          (length-block (board.register b.device address) reg count) fits in
      simp sent (took.0, (took.1.0 ∙ same, took.1.1))

  pub i2c_write_sets :
      (address reg value : ℕ) (b : Bridge D)
      → is_setting address reg ≡ true
      → ((i2c_write usb address reg value b).0 ≡ ok tt)
        × Holds
            (with_register (board.register b.device) address reg value)
            (board.replies b.device)
            (i2c_write usb address reg value b).1
  unfolding i2c_write send
  i2c_write_sets address reg value b setting =
      let law = board.write_request b.device address reg value 5000 setting in
      simp (law.0, law.1) (refl, (law.3, law.2))

  drained :
      (fuel : ℕ) (queue : List Bytes) (d : D)
      → board.replies d ≡ queue
      → length queue < fuel
      → (board.register (drain_responses_locked usb fuel d) ≡ board.register d)
        × (board.replies (drain_responses_locked usb fuel d) ≡ [])
  unfolding drain_responses_locked
  drained zero queue d held enough = absurd (omega arith)
  drained (suc fuel) [] d held enough =
      let law = board.no_reply d 1024 10 held in simp law.0 (law.2, law.1)
  drained (suc fuel) (q ∷ queue) d held enough =
      let fits : length q ≤ 1024 =
        (subst (All (λ q. length q ≤ 1024)) held (board.replies_fit d)).0 in
      let law = board.reply d q queue 1024 10 held fits in
      let rest = drained fuel queue (usb.bulk_in 0x01 1024 10 d).device law.2 (omega arith) in
      simp law.0 (rest.0 ∙ law.3, rest.1)

  -- With more fuel than replies wait, the drain takes them all and leaves the registers alone.
  pub drain_responses_lem :
      (fuel : ℕ) (b : Bridge D)
      → length (board.replies b.device) < fuel
      → Holds (board.register b.device) [] (drain_responses usb fuel b)
  unfolding drain_responses
  drain_responses_lem fuel b enough = drained fuel (board.replies b.device) b.device refl enough

module _ {D : Type 0} (usb : Usb D) where
  receive-length :
      (count : ℕ) (q : Bytes) (b : Bridge D) → (receive usb count b).0 ≡ ok q → length q ≡ count
  unfolding receive
  receive-length count q b h = ground arith

  and_then-ok :
      {A B : Type 0} (m : Command D A) (f : A → Command D B) (b : Bridge D) (v : B)
      → ((m >>= f) b).0 ≡ ok v
      → (a : A) × ((f a (m b).1).0 ≡ ok v)
  and_then-ok m f b v h = go (m b) h
    where
      go : (r : Reply _ × Bridge D) → (and_then r.0 r.1 f).0 ≡ ok v → (a : _) × ((f a r.1).0 ≡ ok v)
      go (ok a, b') k = (a, k)
      go (err e, b') k = absurd (ground arith)

  -- Whatever the device does, a read of registers or of the configuration zone that succeeds returns
  -- as many bytes as were asked for: no more than that is copied to the caller.
  pub read-length :
      (address reg count : ℕ) (q : Bytes) (b : Bridge D)
      → ((i2c_read usb address reg count b).0 ≡ ok q)
        ⊎ ((crypto_read_config usb address count b).0 ≡ ok q)
      → length q ≡ count
  unfolding i2c_read crypto_read_config
  read-length address reg count q b (inl h) =
      let (a, r) =
        and_then-ok (send usb on_request (0x02 ∷ address ∷ 0x01 ∷ count ∷ reg ∷ []))
          (λ _. receive usb count) b q h in
      receive-length count q _ r
  read-length address reg count q b (inr h) =
      let (a, r) =
        and_then-ok (send usb on_command (0x05 ∷ 0xB6 ∷ 0x00 ∷ address ∷ count ∷ []))
          (λ _. send usb on_read_request (0x06 ∷ count ∷ []) >> receive usb count) b q h in
      let (a', r') =
        and_then-ok (send usb on_read_request (0x06 ∷ count ∷ [])) (λ _. receive usb count) _ q r in
      receive-length count q _ r'
