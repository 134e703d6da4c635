-- ===== src/Usb/Toy.antt =====
-- A small board behind libusb that keeps the laws of `Board`, for the tests.
use lgx2userspace.Prelude.{
  ℕ, ◌≤◌, ◌≡◌, refl, sym, ap, ◌∙◌, List, [], ◌∷◌, ◌++◌, arith, leb, le→leb, ◌==◌, if◌then◌else◌,
  Bytes, length, get_or, take, drop, All, length-take, take_all, map,
}
use lgx2userspace.Usb.{
  success, error_timeout, error_other, Received, Usb, Board, block, length-block, with_register,
}

-- The registers, and the replies that wait; one longer than a packet is cut off.
pub record ToyDevice : Type 0 where
  pub registers : ℕ → ℕ → ℕ
  pub waiting : List Bytes

abbrev pub toy_command : Bytes → ToyDevice → ToyDevice
toy_command (c ∷ address ∷ one ∷ x ∷ y ∷ []) d =
    if c == 0x02
    then record d { waiting = d.waiting ++ (block (d.registers address) y x ∷ []) }
    else if c == 0x01
    then record d { registers = with_register d.registers address x y }
    else d
toy_command _ d = d

abbrev pub clamp : Bytes → Bytes
clamp q = take 1024 q

abbrev pub toy_reply : List Bytes → ℕ → ToyDevice → Received ToyDevice
toy_reply [] size d = record { result = error_timeout; bytes = []; device = d }
toy_reply (q ∷ qs) size d =
    if leb (length (clamp q)) size
    then record { result = success; bytes = clamp q; device = record d { waiting = qs } }
    else record { result = error_other; bytes = []; device = d }

abbrev pub toy_usb : Usb ToyDevice
toy_usb = record {
  bulk_out = λ endpoint bytes timeout d. record {
    result = success;
    actual = length bytes;
    device = toy_command bytes d;
  };
  bulk_in = λ endpoint size timeout d.
      if endpoint == 0x01
      then toy_reply d.waiting size d
      else record { result = error_timeout; bytes = []; device = d };
  clear_halt = λ endpoint d. d;
}

pub clamps : (l : List Bytes) → All (λ q. length q ≤ 1024) (map clamp l)
clamps [] = tt
clamps (q ∷ l) = (omega (arith, length-take 1024 q), clamps l)

pub map-append : (xs ys : List Bytes) → map clamp (xs ++ ys) ≡ map clamp xs ++ map clamp ys
map-append [] ys = refl
map-append (x ∷ xs) ys = ap (◌∷◌ (clamp x)) (map-append xs ys)

pub reply_comes :
    (l : List Bytes) (d : ToyDevice) (q : Bytes) (qs : List Bytes) (size : ℕ)
    → map clamp l ≡ q ∷ qs
    → length q ≤ size
    → ((toy_reply l size d).result ≡ success)
      × ((toy_reply l size d).bytes ≡ q)
      × (map clamp (toy_reply l size d).device.waiting ≡ qs)
      × ((toy_reply l size d).device.registers ≡ d.registers)
reply_comes [] d q qs size e fits = absurd (ground arith)
reply_comes (x ∷ l) d q qs size e fits =
    let first : clamp x ≡ q = ap (λ m. get_or m 0 []) e in
    let test = le→leb (length (clamp x)) size (omega (arith, ap length first)) in
    simp test (refl, first, ap (drop 1) e, refl)

pub no_reply_comes :
    (l : List Bytes) (d : ToyDevice) (size : ℕ)
    → l ≡ d.waiting
    → map clamp l ≡ []
    → ((toy_reply l size d).result ≡ error_timeout)
      × (map clamp (toy_reply l size d).device.waiting ≡ [])
      × ((toy_reply l size d).device.registers ≡ d.registers)
no_reply_comes [] d size is e = (refl, ap (map clamp) (sym is), refl)
no_reply_comes (x ∷ l) d size is e = absurd (ground arith)

unfoldable pub toy_board : Board toy_usb
toy_board = record {
  register = λ d. d.registers;
  replies = λ d. map clamp d.waiting;
  replies_fit = λ d. clamps d.waiting;
  read_request = λ d address reg count timeout fits. (
    refl,
    refl,
    map-append d.waiting (block (d.registers address) reg count ∷ [])
        ∙ ap (λ r. map clamp d.waiting ++ (r ∷ []))
            (take_all 1024 (block (d.registers address) reg count)
              (omega (arith, length-block (d.registers address) reg count))),
    refl,
  );
  write_request = λ d address reg value timeout setting. (refl, refl, refl, refl);
  reply = λ d q qs size timeout e fits. reply_comes d.waiting d q qs size e fits;
  no_reply = λ d size timeout e. no_reply_comes d.waiting d size refl e;
  video = λ d size timeout. (refl, refl);
}
