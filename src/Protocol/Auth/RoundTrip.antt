-- ===== src/Protocol/Auth/RoundTrip.antt =====
-- What `parse_authenticated_packet` accepts: exactly the packets that carry the code of their body.
use tws_rust.Prelude.{
  ℕ, suc, List, [], ◌∷◌, ◌++◌, true, some, length, take, drop, ok, err, ◌≡◌, ap, subst, ◌∙◌, ◌≢◌,
  arith, All-append, append_assoc, take-append_length, drop-append_length, drop-drop, Option-cases,
  Result-cases, inl, inr,
}
use tws_rust.Text.Bytes.{
  Bytes, codes, newline, bytes_eq, bytes_eq_refl, bytes_eq→eq, Lacks, IsAscii,
}
use tws_rust.Text.Utf8.{from_utf8, is_utf8, is_utf8-ascii, from_utf8-append}
use tws_rust.Text.Search.{find, find-append, find-eq-some, find-Lacks}
use tws_rust.Text.Split.{lines, lines-append}
use tws_rust.Protocol.Auth.{
  Crypto, hmac_sha256, build_authenticated_packet, parse_authenticated_packet,
}

-- The text of a code is ASCII with no line break, as base64 is.
pub record IsText (s : Bytes) : Type 0 where
  pub ascii : IsAscii s
  pub one_line : Lacks newline s

header-IsAscii : (auth : Bytes) → IsText auth → IsAscii ((codes "AUTH " ++ auth) ++ newline ∷ [])
header-IsAscii auth t =
    All-append _ (codes "AUTH " ++ auth) _
      (omega arith, (omega arith, (omega arith, (omega arith, (omega arith, t.ascii)))))
      (omega arith, tt)

header-Lacks : (auth : Bytes) → IsText auth → Lacks newline (codes "AUTH " ++ auth)
header-Lacks auth t =
    (omega arith, (omega arith, (omega arith, (omega arith, (omega arith, t.one_line)))))

-- A packet with the code of its body is accepted, and its body's lines are returned.
pub parse_authenticated :
    (c : Crypto) (passwd auth msg : Bytes)
    → hmac_sha256 c passwd msg ≡ ok auth
    → IsText auth
    → is_utf8 msg ≡ true
    → parse_authenticated_packet c passwd (codes "AUTH " ++ (auth ++ newline ∷ msg))
      ≡ ok (lines msg)
unfolding parse_authenticated_packet bytes_eq
parse_authenticated c passwd auth msg h t u =
    let first = codes "AUTH " ++ auth in
    let packet = first ++ newline ∷ msg in
    let utf8 : from_utf8 packet "Illegal packet" ≡ ok packet =
      rw (← append_assoc first (newline ∷ []) msg) (
        from_utf8-append (first ++ newline ∷ []) msg "Illegal packet"
          (is_utf8-ascii (first ++ newline ∷ []) (header-IsAscii auth t)) u) in
    let found : find newline packet ≡ some (length first) =
      find-append newline first msg (header-Lacks auth t) in
    let front : take (length first) packet ≡ first = take-append_length first (newline ∷ msg) in
    let back : drop (length first) packet ≡ newline ∷ msg =
      drop-append_length first (newline ∷ msg) in
    let body : lines packet ≡ _ = lines-append first msg (header-Lacks auth t) in
    ground (arith, utf8, found, front, back, h, bytes_eq_refl first, body)

-- Nothing else is accepted: the first line is the code of all that stands behind it.
pub parse_authenticated_sound :
    (c : Crypto) (passwd packet : Bytes) {ls : List Bytes}
    → parse_authenticated_packet c passwd packet ≡ ok ls
    → (auth : Bytes) × (msg : Bytes) × (packet ≡ codes "AUTH " ++ (auth ++ newline ∷ msg))
      × (hmac_sha256 c passwd msg ≡ ok auth)
      × (ls ≡ lines msg)
unfolding parse_authenticated_packet from_utf8
parse_authenticated_sound c passwd packet {ls} h = elim (Option-cases (find newline packet)) [
  | inl e ↦ absurd (ground arith)
  | inr (i, e) ↦
      let msg = drop (suc i) packet in
      let same : drop 1 (drop i packet) ≡ msg = drop-drop i packet in
      elim (Result-cases (hmac_sha256 c passwd msg)) [
        | inr (message, bad) ↦ absurd (ground arith)
        | inl (auth, good) ↦
            let first : take i packet ≡ codes "AUTH " ++ auth = bytes_eq→eq _ _ (ground arith) in
            let whole : packet ≡ codes "AUTH " ++ (auth ++ newline ∷ msg) =
              find-eq-some newline packet i e ∙ ap (λ t. t ++ newline ∷ msg) first in
            let one_line : Lacks newline (codes "AUTH " ++ auth) =
              subst (Lacks newline) first (find-Lacks newline packet i e) in
            let all : lines packet ≡ _ =
              ap lines whole ∙ lines-append (codes "AUTH " ++ auth) msg one_line in
            (auth, msg, whole, good, ground arith)
      ]
]

-- What is assumed of `encode`: base64 writes ASCII letters, digits, `+`, `/` and `=`.
pub record TextCodes (c : Crypto) : Type 0 where
  pub encode_text : (code : Bytes) → IsText (c.encode code)

hmac_sha256-IsText :
    (c : Crypto) (passwd msg : Bytes) {auth : Bytes}
    → TextCodes c
    → hmac_sha256 c passwd msg ≡ ok auth
    → IsText auth
unfolding hmac_sha256
hmac_sha256-IsText c passwd msg {auth} t h = elim (Option-cases (c.new_mac passwd)) [
  | inl e ↦ absurd (ground arith)
  | inr (mac, e) ↦
      let same : c.encode (mac msg) ≡ auth = ground arith in
      subst IsText same (t.encode_text (mac msg))
]

-- What is built is accepted under the same password.
pub parse_authenticated-build :
    (c : Crypto) (passwd msg : Bytes) {packet : Bytes}
    → TextCodes c
    → is_utf8 msg ≡ true
    → build_authenticated_packet c passwd msg ≡ ok packet
    → parse_authenticated_packet c passwd packet ≡ ok (lines msg)
unfolding build_authenticated_packet
parse_authenticated-build c passwd msg t u h = elim (Result-cases (hmac_sha256 c passwd msg)) [
  | inr (message, bad) ↦ absurd (ground arith)
  | inl (auth, good) ↦
      let accepted =
        parse_authenticated c passwd auth msg good (hmac_sha256-IsText c passwd msg t good) u in
      ground (arith, accepted)
]

-- A packet that does not begin with an `A` is not looked at.
pub parse_authenticated_other :
    (c : Crypto) (passwd : Bytes) (x : ℕ) (s : Bytes)
    → x ≢ b'A'
    → parse_authenticated_packet c passwd (x ∷ s) ≡ err "Not a proper authenticated packet."
unfolding parse_authenticated_packet bytes_eq
parse_authenticated_other c passwd x s h = ground arith
