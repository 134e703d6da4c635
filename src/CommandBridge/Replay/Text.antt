-- ===== src/CommandBridge/Replay/Text.antt =====
-- The text of a command stream, as the recordings that `CommandBridge::replay` plays are written: a
-- write is > and two hexadecimal digits for each byte, a read < and a decimal number.
use lgx2userspace.Prelude.{
  ℕ, zero, suc, ◌+◌, ◌-◌, ◌*◌, ◌/◌, ◌%◌, ◌≤◌, ◌<◌, ◌≡◌, refl, sym, ap, ◌∙◌, false, inl, inr, some,
  List, [], ◌∷◌, ◌++◌, append-nil, arith, ltb, if◌then◌else◌, Bytes, length, All, Bool-cases,
}
use mathlib.Core.Option
use lgx2userspace.Usb.{Usb}
use lgx2userspace.CommandBridge.Replay.{
  is_space, reversed, end_token, tokens_from, digit_value, digits_from, int_max, stoi, hex_bytes,
  Step, write, read_reply, parse_command, Ending, step, is_done, then_steps, step_parsed,
  replay_tokens, replay, run_steps,
}

unfoldable pub digit : ℕ → ℕ
digit v = if ltb v 10 then b'0' + v else b'A' + (v - 10)

abbrev pub hex_text : Bytes → List ℕ
hex_text [] = []
hex_text (x ∷ xs) = digit (x / 16) ∷ digit (x % 16) ∷ hex_text xs

-- The decimal digits of `n` in front of a text, on fuel.
unfoldable pub decimal_onto : ℕ → ℕ → List ℕ → List ℕ
decimal_onto zero n text = text
decimal_onto (suc fuel) n text =
    let more = decimal_onto fuel (n / 10) (digit (n % 10) ∷ text) in
    if ltb n 10 then digit n ∷ text else more

unfoldable pub render : Step → List ℕ
render (write bytes) = b'>' ∷ hex_text bytes
render (read_reply count) = b'<' ∷ decimal_onto (suc count) count []

-- Each command with a blank behind it.
unfoldable pub render_all : List Step → List ℕ
render_all [] = []
render_all (s ∷ steps) = render s ++ (b' ' ∷ render_all steps)

-- What is written are bytes, and the count of a read is an `int`.
abbrev pub IsStep : Step → Type 0
IsStep (write bytes) = All (λ x. x < 256) bytes
IsStep (read_reply count) = count ≤ int_max

digit_value-digit : (v : ℕ) → v < 16 → digit_value (digit v) ≡ v
unfolding digit digit_value
digit_value-digit v h = ground arith

digit-visible : (v : ℕ) → v < 16 → is_space (digit v) ≡ false
unfolding digit
digit-visible v h = ground arith

stoi-digit :
    (base v : ℕ) (text : List ℕ)
    → v < base
    → base ≤ 16
    → digits_from base v text ≤ int_max
    → stoi base (digit v ∷ text) ≡ some (digits_from base v text)
unfolding stoi
stoi-digit base v text h k m = ground (arith, digit_value-digit v)

digits_from-digit :
    (base value v : ℕ) (text : List ℕ)
    → v < base
    → base ≤ 16
    → digits_from base value (digit v ∷ text) ≡ digits_from base (value * base + v) text
unfolding digits_from
digits_from-digit base value v text h k = ground (arith, digit_value-digit v)

hex_pair : (x : ℕ) → x < 256 → stoi 16 (digit (x / 16) ∷ digit (x % 16) ∷ []) ≡ some x
unfolding digits_from
hex_pair x h =
    let value = digits_from-digit 16 (x / 16) (x % 16) [] (omega arith) (omega arith) ∙ whole in
    stoi-digit 16 (x / 16) (digit (x % 16) ∷ []) (omega arith) (omega arith) (omega (arith, value))
    ∙ ap some value
  where
    whole : digits_from 16 (x / 16 * 16 + x % 16) [] ≡ x
    whole = omega arith

hex_bytes-hex_text :
    (xs : Bytes) → All (λ x. x < 256) xs → hex_bytes (length xs) (hex_text xs) ≡ some xs
unfolding hex_bytes
hex_bytes-hex_text [] h = refl
hex_bytes-hex_text (x ∷ xs) h =
    simp (hex_pair x h.0, hex_bytes-hex_text xs h.1) (ap (λ y. some (y ∷ xs)) (omega (arith, h.0)))

length-hex_text : (xs : Bytes) → length (hex_text xs) ≡ 2 * length xs
length-hex_text [] = refl
length-hex_text (x ∷ xs) = omega (arith, length-hex_text xs)

stoi-decimal_onto :
    (fuel n : ℕ) (text : List ℕ)
    → n < fuel
    → digits_from 10 n text ≤ int_max
    → stoi 10 (decimal_onto fuel n text) ≡ some (digits_from 10 n text)
unfolding decimal_onto
stoi-decimal_onto zero n text h m = absurd (omega arith)
stoi-decimal_onto (suc fuel) n text h m = elim (Bool-cases (ltb n 10)) [
  | inl small ↦ simp small (ground (arith, stoi-digit 10 n text))
  | inr large ↦ simp large (
      let value : digits_from 10 (n / 10) (digit (n % 10) ∷ text) ≡ digits_from 10 n text =
        digits_from-digit 10 (n / 10) (n % 10) text (omega arith) (omega arith)
        ∙ ap (λ m. digits_from 10 m text) {y = n} (omega arith) in
      stoi-decimal_onto fuel (n / 10) (digit (n % 10) ∷ text) (ground arith)
        (omega (arith, value, m))
      ∙ ap some value)
]

-- A command that was written out is read as itself.
parse_command-render : (s : Step) → IsStep s → parse_command (render s) ≡ some s
unfolding parse_command render digits_from
parse_command-render (write bytes) h =
    ap (λ n. Option.map write (hex_bytes n (hex_text bytes))) {y = length bytes}
      (omega (arith, length-hex_text bytes))
    ∙ simp (hex_bytes-hex_text bytes h) refl
parse_command-render (read_reply count) h =
    simp (stoi-decimal_onto (suc count) count [] (omega arith) h) refl

-- The tokens.
abbrev IsVisible : List ℕ → Type 0
IsVisible t = All (λ c. is_space c ≡ false) t

hex_text-IsVisible : (xs : Bytes) → All (λ x. x < 256) xs → IsVisible (hex_text xs)
hex_text-IsVisible [] h = tt
hex_text-IsVisible (x ∷ xs) h = (
  digit-visible (x / 16) (omega (arith, h.0)),
  (digit-visible (x % 16) (omega arith), hex_text-IsVisible xs h.1),
)

decimal_onto-IsVisible :
    (fuel n : ℕ) (text : List ℕ) → IsVisible text → IsVisible (decimal_onto fuel n text)
unfolding decimal_onto
decimal_onto-IsVisible zero n text h = h
decimal_onto-IsVisible (suc fuel) n text h = elim (Bool-cases (ltb n 10)) [
  | inl small ↦ simp small (digit-visible n (ground arith), h)
  | inr large ↦ simp large (
      decimal_onto-IsVisible fuel (n / 10) (digit (n % 10) ∷ text)
        (digit-visible (n % 10) (omega arith), h))
]

render-IsVisible : (s : Step) → IsStep s → IsVisible (render s)
unfolding render
render-IsVisible (write bytes) h = (refl, hex_text-IsVisible bytes h)
render-IsVisible (read_reply count) h = (refl, decimal_onto-IsVisible (suc count) count [] tt)

reversed_twice : (t a b : List ℕ) → reversed (reversed t a) b ≡ reversed a (t ++ b)
reversed_twice [] a b = refl
reversed_twice (c ∷ t) a b = reversed_twice t (c ∷ a) b

-- The characters of a token are held until the blank behind it.
tokens_held :
    (t held rest : List ℕ)
    → IsVisible t
    → tokens_from (t ++ (b' ' ∷ rest)) held ≡ end_token (reversed t held) (tokens_from rest [])
unfolding tokens_from
tokens_held [] held rest h = refl
tokens_held (c ∷ t) held rest h = simp h.0 (tokens_held t (c ∷ held) rest h.1)

end_token-reversed :
    (c : ℕ) (t : List ℕ) (tokens : List (List ℕ))
    → end_token (reversed (c ∷ t) []) tokens ≡ (c ∷ t) ∷ tokens
end_token-reversed c t tokens = ended (reversed (c ∷ t) []) (reversed_twice (c ∷ t) [] [])
  where
    ended : (l : List ℕ) → reversed l [] ≡ (c ∷ t) ++ [] → end_token l tokens ≡ (c ∷ t) ∷ tokens
    ended [] e = absurd (ground arith)
    ended (x ∷ l) e = ap (λ u. u ∷ tokens) (e ∙ append-nil (c ∷ t))

-- A command is not empty.
render_cons : (s : Step) → (c : ℕ) × (t : List ℕ) × (render s ≡ c ∷ t)
unfolding render
render_cons (write bytes) = (_, _, refl)
render_cons (read_reply count) = (_, _, refl)

tokens-render :
    (s : Step) (rest : List ℕ)
    → IsStep s
    → tokens_from (render s ++ (b' ' ∷ rest)) [] ≡ render s ∷ tokens_from rest []
tokens-render s rest h =
    let (c, t, e) = render_cons s in
    tokens_held (render s) [] rest (render-IsVisible s h)
    ∙ ap (λ u. end_token (reversed u []) (tokens_from rest [])) e
    ∙ end_token-reversed c t (tokens_from rest [])
    ∙ ap (λ u. u ∷ tokens_from rest []) (sym e)

module _ {D : Type 0} (usb : Usb D) where
  then_steps-eq :
      (f g : D → Ending × D) (r : Ending × D)
      → ((d : D) → f d ≡ g d)
      → then_steps usb f r ≡ then_steps usb g r
  then_steps-eq f g r h = ap (λ x. if is_done r.0 then x else r) (h r.1)

  replay_tokens-render_all :
      (steps : List Step) (d : D)
      → All IsStep steps
      → replay_tokens usb (tokens_from (render_all steps) []) d ≡ run_steps usb steps d
  unfolding render_all replay_tokens run_steps tokens_from
  replay_tokens-render_all [] d h = refl
  replay_tokens-render_all (s ∷ steps) d h =
      ap (λ tokens. replay_tokens usb tokens d) (tokens-render s (render_all steps) h.0)
      ∙ ap
          (λ o.
            then_steps usb (replay_tokens usb (tokens_from (render_all steps) []))
              (step_parsed usb o d))
          (parse_command-render s h.0)
      ∙ then_steps-eq (replay_tokens usb (tokens_from (render_all steps) [])) (run_steps usb steps)
          (step usb s d) (λ e. replay_tokens-render_all steps e h.1)

  -- Replaying the text of a stream of commands does what the commands do one after the other, up to
  -- the first that fails. What they write must be bytes, and what they read no more than an `int` counts.
  pub replay-render_all :
      (steps : List Step) (d : D)
      → All IsStep steps
      → replay usb (render_all steps) d ≡ run_steps usb steps d
  unfolding replay
  replay-render_all steps d h = replay_tokens-render_all steps d h
