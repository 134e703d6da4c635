-- ===== src/CommandBridge/Replay.antt =====
-- `CommandBridge::replay` of src/liblgx/liblgx-usb/src/usb/CommandBridge.cpp. A text is a list of
-- character codes. `std::stoi` reads the digits that the text begins with, and throws where there is
-- none or where they are worth more than an `int` holds; a sign or a blank in front of them, which it
-- would skip, ends the number here.
pub mod Text
use lgx2userspace.Prelude.{
  ℕ, zero, suc, ◌+◌, ◌-◌, ◌*◌, ◌/◌, ◌%◌, ◌^◌, Bool, true, false, not, ◌&&◌, ◌||◌, Option, none,
  some, List, [], ◌∷◌, ltb, leb, ◌==◌, if◌then◌else◌, Bytes, length, take, drop,
}
use mathlib.Core.Option
use lgx2userspace.Usb.{Sent, Received, Usb}

-- `std::isspace`
abbrev is_space : ℕ → Bool
is_space c = c == b' ' || (leb 9 c && leb c 13)

-- `stream >> command`, over and over: the tokens between white space. `held` is the token so far,
-- the last character first.
abbrev reversed : List ℕ → List ℕ → List ℕ
reversed [] l = l
reversed (c ∷ cs) l = reversed cs (c ∷ l)

abbrev end_token : List ℕ → List (List ℕ) → List (List ℕ)
end_token [] tokens = tokens
end_token (c ∷ held) tokens = reversed (c ∷ held) [] ∷ tokens

unfoldable pub tokens_from : List ℕ → List ℕ → List (List ℕ)
tokens_from [] held = end_token held []
tokens_from (c ∷ cs) held =
    let behind = tokens_from cs [] in
    let longer = tokens_from cs (c ∷ held) in if is_space c then end_token held behind else longer

-- The value of a digit, 16 where it is none.
unfoldable pub digit_value : ℕ → ℕ
digit_value c =
    if leb b'0' c && leb c b'9'
    then c - b'0'
    else if leb b'A' c && leb c b'F'
    then c - b'A' + 10
    else if leb b'a' c && leb c b'f'
    then c - b'a' + 10
    else 16

-- The digits that a text begins with, after those that are worth `value`.
unfoldable pub digits_from : ℕ → ℕ → List ℕ → ℕ
digits_from base value [] = value
digits_from base value (c ∷ cs) =
    let rest = digits_from base (value * base + digit_value c) cs in
    if ltb (digit_value c) base then rest else value

-- INT_MAX
abbrev pub int_max : ℕ
int_max = 2_147_483_647

-- `std::stoi(text, nullptr, base)`: `none` where it throws `std::invalid_argument` or
-- `std::out_of_range`.
unfoldable pub stoi : ℕ → List ℕ → Option ℕ
stoi base [] = none
stoi base (c ∷ cs) =
    let value = digits_from base (digit_value c) cs in
    if ltb (digit_value c) base && leb value int_max then some value else none

-- A byte, where the digits were read, in front of the others.
abbrev store_byte : Option ℕ → Option Bytes → Option Bytes
store_byte none rest = none
store_byte (some value) none = none
store_byte (some value) (some bytes) = some (value % 2 ^ 8 ∷ bytes)

-- The bytes of `count` pairs of hexadecimal digits; `transferBuffer` is an array of uint8_t.
unfoldable pub hex_bytes : ℕ → List ℕ → Option Bytes
hex_bytes zero text = some []
hex_bytes (suc count) text =
    let rest = hex_bytes count (drop 2 text) in store_byte (stoi 16 (take 2 text)) rest

-- A token that was read: what is written to OUT 0x01, or how many bytes are read from IN 0x81.
pub data Step : Type 0 where
  write : Bytes → Step
  read_reply : ℕ → Step

-- How the loop of `replay` reads a token.
unfoldable pub parse_command : List ℕ → Option Step
parse_command [] = none
parse_command (c ∷ text) =
    if c == b'>'
    then Option.map write (hex_bytes (length text / 2) text)
    else Option.map read_reply (stoi 10 text)

-- sizeof(transferBuffer)
abbrev transfer_buffer_bytes : ℕ
transfer_buffer_bytes = 512

-- How `replay` ends: it returns, an exception of `std::stoi` (`bad_number`) or one of its own is thrown, or it
-- would go past the end of `transferBuffer`.
pub data Ending : Type 0 where
  done bad_number under_run_write under_run_read out_of_bounds : Ending

abbrev pub is_done : Ending → Bool
is_done done = true
is_done bad_number = false
is_done under_run_write = false
is_done under_run_read = false
is_done out_of_bounds = false

module _ {D : Type 0} (usb : Usb D) where
  -- A round of the loop, with the code of the transfer ignored as the source does.
  unfoldable pub step : Step → D → Ending × D
  step (write bytes) d =
      let sent = usb.bulk_out 0x01 bytes 0 d in
      if ltb transfer_buffer_bytes (length bytes)
      then (out_of_bounds, d)
      else if sent.actual == length bytes
      then (done, sent.device)
      else (under_run_write, sent.device)
  step (read_reply count) d =
      let received = usb.bulk_in 0x01 count 0 d in
      if ltb transfer_buffer_bytes count
      then (out_of_bounds, d)
      else if length received.bytes == count
      then (done, received.device)
      else (under_run_read, received.device)

  abbrev pub then_steps : (D → Ending × D) → Ending × D → Ending × D
  then_steps next (ending, d) = if is_done ending then next d else (ending, d)

  abbrev step_parsed : Option Step → D → Ending × D
  step_parsed none d = (bad_number, d)
  step_parsed (some s) d = step s d

  -- The loop of `replay` over the tokens.
  unfoldable pub replay_tokens : List (List ℕ) → D → Ending × D
  replay_tokens [] d = (done, d)
  replay_tokens (token ∷ tokens) d =
      then_steps (replay_tokens tokens) (step_parsed (parse_command token) d)

  -- `replay`
  unfoldable pub replay : List ℕ → D → Ending × D
  replay commands d = replay_tokens (tokens_from commands []) d

  -- The steps in order, up to the first that fails.
  unfoldable pub run_steps : List Step → D → Ending × D
  run_steps [] d = (done, d)
  run_steps (s ∷ steps) d = then_steps (run_steps steps) (step s d)
