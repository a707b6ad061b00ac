-- ===== src/Tests/Toy.antt =====
-- A toy code in place of HMAC-SHA256 and base64: one letter for the sum of the bytes. It shows that what is
-- assumed of the crates can hold.
use tws_rust.Prelude.{ℕ, ◌+◌, ◌%◌, [], ◌∷◌, ◌++◌, some, arith}
use tws_rust.Text.Bytes.{Bytes, codes}
use tws_rust.Protocol.Auth.{Crypto}
use tws_rust.Protocol.Auth.RoundTrip.{TextCodes}

abbrev total : Bytes → ℕ
total [] = 0
total (x ∷ s) = x + total s

abbrev pub toy : Crypto
toy = record {
  new_mac = λ key. some (λ body. key ++ body);
  encode = λ bytes. (b'a' + total bytes % 26) ∷ [];
}

pub toy_text : TextCodes toy
toy_text = record {
  encode_text = λ bytes. record { ascii = (omega arith, tt); one_line = (omega arith, tt) };
}

abbrev pub passwd : Bytes
passwd = codes "secret"

abbrev pub id : Bytes
id = codes "XnjEa2"
