-- ===== src/Net/Numbers.antt =====
-- The numbers of an IPv4 address, and the address, are read back from their print.
use native.Mathlib.Nat.{pow-suc}
use tws_rust.Prelude.{
  ℕ, zero, suc, ◌+◌, ◌*◌, ◌/◌, ◌%◌, ◌^◌, ◌≤◌, ◌<◌, [], ◌∷◌, ◌++◌, ◌≡◌, refl, ◌∙◌, none, some, ltb,
  arith, ==_iff, append_assoc, append-nil, Bool-cases, inl, inr, length, length-append,
}
use tws_rust.Text.Bytes.{Bytes}
use tws_rust.Text.Decimal.{digits}
use tws_rust.Text.Decimal.RoundTrip.{digits-cons}
use tws_rust.Net.Addr.{IpAddr, v4, InRange}
use tws_rust.Net.Show.{show_u8, show_u16, show_v4, show_addr}
use tws_rust.Net.Read.{
  Reader, ◌>>=◌, ◌>>◌, expect, give, read_digits, read_number, read_v4, read_port, parse_addr,
  parse_ip, to_digit,
}

length-digits-le : (f n : ℕ) → length (digits f n) ≤ f
unfolding digits
length-digits-le zero n = omega arith
length-digits-le (suc f) n =
    ground
      (arith, length-digits-le f (n / 10), length-append (digits f (n / 10)) ((b'0' + n % 10) ∷ []))

read_digits_step :
    (most upto acc count c n k : ℕ) (s : Bytes)
    → c < 10
    → acc * 10 + c ≡ n
    → count + 1 ≡ k
    → k ≤ most
    → n < upto
    → read_digits 10 most upto acc count ((b'0' + c) ∷ s) ≡ read_digits 10 most upto n k s
unfolding read_digits
read_digits_step most upto acc count c n k s h e e' hk hn = ground arith

-- The loop of `read_number` after the digits of `n`.
read_digits-digits :
    (most upto f n : ℕ) (s : Bytes)
    → n < 10 ^ f
    → f ≤ most
    → n < upto
    → read_digits 10 most upto 0 0 (digits f n ++ s)
      ≡ read_digits 10 most upto n (length (digits f n)) s
unfolding digits
read_digits-digits most upto zero n s h hf hn = let e : n ≡ 0 = omega arith in rw e
read_digits-digits most upto (suc f) n s h hf hn =
    let tenth : n / 10 < 10 ^ f = omega (arith, pow-suc 10 f) in
    let front =
      read_digits-digits most upto f (n / 10) ((b'0' + n % 10) ∷ s) tenth (omega arith)
        (omega arith) in
    elim (Bool-cases (ltb n 10)) [
      | inl small ↦ rw small (
          read_digits_step most upto 0 0 n n 1 s (ground arith) (omega arith) (omega arith)
            (omega arith) hn)
      | inr large ↦
          rw (large, append_assoc)
            (front
              ∙ read_digits_step most upto (n / 10) (length (digits f (n / 10))) (n % 10) n
                  (length (digits f (n / 10) ++ (b'0' + n % 10) ∷ [])) s (omega arith) (omega arith)
                  (omega (arith, length-append (digits f (n / 10)) ((b'0' + n % 10) ∷ [])))
                  (omega (
                    arith,
                    length-append (digits f (n / 10)) ((b'0' + n % 10) ∷ []),
                    length-digits-le f (n / 10),
                  ))
                  hn)
    ]

-- A number has a digit.
pub length-digits-pos : (f n : ℕ) → 0 < length (digits (suc f) n)
length-digits-pos f n = let (c, s, e) = digits-cons f n in rw e (omega arith)

-- The text is over, or its next byte is no digit.
abbrev EndsNumber : Bytes → Type 0
EndsNumber [] = Unit {0}
EndsNumber (c ∷ s) = to_digit 10 c ≡ none

read_digits_end :
    (most upto acc count : ℕ) (s : Bytes)
    → 0 < count
    → EndsNumber s
    → read_digits 10 most upto acc count s ≡ some (acc, s)
unfolding read_digits
read_digits_end most upto acc count [] h k = ground arith
read_digits_end most upto acc count (c ∷ s) h k = rw (k, read_digits) (ground arith)

read_number-digits :
    (most upto f n : ℕ) (s : Bytes)
    → n < 10 ^ suc f
    → suc f ≤ most
    → n < upto
    → EndsNumber s
    → read_number 10 most upto (digits (suc f) n ++ s) ≡ some (n, s)
unfolding read_number
read_number-digits most upto f n s h hf hn k =
    read_digits-digits most upto (suc f) n s h hf hn
    ∙ read_digits_end most upto n (length (digits (suc f) n)) s (length-digits-pos f n) k

read_u8 :
    (n : ℕ) (s : Bytes)
    → n < 256
    → EndsNumber s
    → read_number 10 3 256 (show_u8 n ++ s) ≡ some (n, s)
unfolding show_u8
read_u8 n s h k = read_number-digits 3 256 2 n s (omega arith) (omega arith) h k

read_u16 :
    (n : ℕ) (s : Bytes)
    → n < 65536
    → EndsNumber s
    → read_number 10 5 65536 (show_u16 n ++ s) ≡ some (n, s)
unfolding show_u16
read_u16 n s h k = read_number-digits 5 65536 4 n s (omega arith) (omega arith) h k

-- A bind whose first reader succeeds.

bind_lem :
    {A B : Type 0} (m : Reader A) (f : A → Reader B) (s : Bytes) {a : A} {rest : Bytes}
    → m s ≡ some (a, rest)
    → (m >>= f) s ≡ f a rest
bind_lem m f s h = rw (h, ◌>>=◌)

expect_self : (c : ℕ) (s : Bytes) → expect c (c ∷ s) ≡ some (tt, s)
expect_self c s = rw ((==_iff c c).1 refl)

-- A number and the byte that must stand behind it.
read_part :
    (n c : ℕ) (s : Bytes) (f : ℕ → Reader IpAddr)
    → n < 256
    → to_digit 10 c ≡ none
    → (read_number 10 3 256 >>= λ a. expect c >> f a) (show_u8 n ++ c ∷ s) ≡ f n s
read_part n c s f h k =
    bind_lem (read_number 10 3 256) (λ a. expect c >> f a) (show_u8 n ++ c ∷ s)
      (read_u8 n (c ∷ s) h k)
    ∙ bind_lem (expect c) (λ _. f n) (c ∷ s) (expect_self c s)

read_v4-show_v4 :
    (a b c d : ℕ) (s : Bytes)
    → InRange (v4 a b c d)
    → EndsNumber s
    → read_v4 (show_v4 a b c d ++ s) ≡ some (v4 a b c d, s)
unfolding read_v4 show_v4
read_v4-show_v4 a b c d s (ha, hb, hc, hd) k = simp append_assoc (
    read_part a b'.' _ _ ha refl
    ∙ read_part b b'.' _ _ hb refl
    ∙ read_part c b'.' _ _ hc refl
    ∙ bind_lem (read_number 10 3 256) (λ x. give (v4 a b c x)) (show_u8 d ++ s) (read_u8 d s hd k))

read_port-show_u16 : (n : ℕ) → n < 65536 → read_port (b':' ∷ show_u16 n) ≡ some (n, [])
unfolding read_port
read_port-show_u16 n h = rw (← append-nil (show_u16 n)) (read_u16 n [] h tt)

-- An IPv4 address is read back from its print.
pub parse_addr-show_addr :
    (a b c d port : ℕ)
    → InRange (v4 a b c d)
    → port < 65536
    → parse_addr (show_addr (record { ip = v4 a b c d; port = port }))
      ≡ some (record { ip = v4 a b c d; port = port })
unfolding parse_addr show_addr
parse_addr-show_addr a b c d port h k =
    ground (arith, read_v4-show_v4 a b c d (b':' ∷ show_u16 port) h refl, read_port-show_u16 port k)

-- An IPv4 address without a port is read back from its print.
pub parse_ip-show_v4 :
    (a b c d : ℕ) → InRange (v4 a b c d) → parse_ip (show_v4 a b c d) ≡ some (v4 a b c d)
unfolding parse_ip
parse_ip-show_v4 a b c d h =
    let read : read_v4 (show_v4 a b c d) ≡ some (v4 a b c d, []) =
      rw (← append-nil (show_v4 a b c d)) (read_v4-show_v4 a b c d [] h tt) in
    rw read refl
