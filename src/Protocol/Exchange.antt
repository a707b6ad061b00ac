-- ===== src/Protocol/Exchange.antt =====
-- What one side builds, `parse_packet` on the other side reads back.
use tws_rust.Prelude.{
  ℕ, [], ◌∷◌, ◌++◌, true, length, length-append, take, drop, ok, ◌≡◌, refl, ap, ◌∙◌, ◌≢◌, arith,
  All-append, take-append_length, drop-append_length, subst,
}
use tws_rust.Prelude.Int.{ℤ}
use tws_rust.Text.Bytes.{Bytes, codes, newline, bytes_eq, Lacks, IsAscii}
use tws_rust.Text.Utf8.{is_utf8, is_utf8-append, is_utf8-ascii, from_utf8}
use tws_rust.Text.Search.{starts_with}
use tws_rust.Text.Split.{lines, lines_last, split, split-append, split_last, EndsPlain-append}
use tws_rust.Protocol.Packet.{
  connect, udp_connect, connection_state, payload, udp_payload, unrecognized, ConnectionState,
  ok_state, closed, pause, resume, to_string, parse_state-to_string,
}
use tws_rust.Protocol.Auth.{Crypto, parse_authenticated_packet}
use tws_rust.Protocol.Auth.RoundTrip.{
  TextCodes, parse_authenticated-build, parse_authenticated_other,
}
use tws_rust.Protocol.ConnId.{IsConnId}
use tws_rust.Protocol.Connect.{connect_build, connect_parse, udp_connect_build, udp_connect_parse}
use tws_rust.Protocol.Handshake.{handshake_parse}
use tws_rust.Protocol.State.{connect_state_build, connect_state_parse}
use tws_rust.Protocol.Data.{data_build, data_parse, udp_data_build, udp_data_parse}
use tws_rust.Protocol.Dispatch.{parse_packet, parse_plain}

-- A body of one line.
one_line : (p id : Bytes) → Lacks newline p → IsConnId id → lines (p ++ id) ≡ (p ++ id) ∷ []
one_line p [] h v = absurd (omega (arith, v.six))
one_line [] (x ∷ s) h v = lines_last x s v.one_line v.plain
one_line (y ∷ p) (x ∷ s) h v =
    lines_last y (p ++ x ∷ s) (All-append _ (y ∷ p) (x ∷ s) h v.one_line)
      (EndsPlain-append (y ∷ p) x s v.plain)

module _ (c : Crypto) (codes_text : TextCodes c) (passwd : Bytes) (time : ℤ) where
  -- A connection request is read as one, with its identifier.
  pub parse_packet-connect_build :
      (id : Bytes) {packet : Bytes}
      → IsConnId id
      → connect_build c passwd id ≡ ok packet
      → parse_packet c passwd time packet ≡ connect id
  unfolding parse_packet connect_build handshake_parse connect_parse starts_with
  parse_packet-connect_build id {packet} v h =
      let prefix = codes "NEW CONNECTION " in
      let u : is_utf8 (prefix ++ id) ≡ true =
        is_utf8-append prefix id (is_utf8-ascii prefix (omega arith)) ∙ v.utf8 in
      let parsed : parse_authenticated_packet c passwd packet ≡ ok ((prefix ++ id) ∷ []) =
        parse_authenticated-build c passwd (prefix ++ id) codes_text u h
        ∙ ap ok (one_line prefix id (omega arith) v) in
      ground (arith, parsed, v.six)

  -- A request for a UDP connection is read as one, with its identifier.
  pub parse_packet-udp_connect_build :
      (id : Bytes) {packet : Bytes}
      → IsConnId id
      → udp_connect_build c passwd id ≡ ok packet
      → parse_packet c passwd time packet ≡ udp_connect id
  unfolding parse_packet udp_connect_build handshake_parse connect_parse udp_connect_parse
      starts_with
  parse_packet-udp_connect_build id {packet} v h =
      let prefix = codes "NEW UDP CONNECTION " in
      let u : is_utf8 (prefix ++ id) ≡ true =
        is_utf8-append prefix id (is_utf8-ascii prefix (omega arith)) ∙ v.utf8 in
      let parsed : parse_authenticated_packet c passwd packet ≡ ok ((prefix ++ id) ∷ []) =
        parse_authenticated-build c passwd (prefix ++ id) codes_text u h
        ∙ ap ok (one_line prefix id (omega arith) v) in
      ground (arith, parsed, v.six)

-- The parts of a state packet between its spaces.
state_parts :
    (id : Bytes) (s : ConnectionState)
    → IsConnId id
    → split b' ' (connect_state_build id s) ≡ codes "CONNECTION" ∷ id ∷ to_string s ∷ []
unfolding connect_state_build
state_parts id s v =
    split-append b' ' (codes "CONNECTION") (id ++ b' ' ∷ to_string s) (omega arith)
    ∙ ap (λ r. codes "CONNECTION" ∷ r)
        (split-append b' ' id (to_string s) v.no_space ∙ ap (λ r. id ∷ r) (last s))
  where
    last : (s : ConnectionState) → split b' ' (to_string s) ≡ to_string s ∷ []
    last ok_state = unfold to_string in split_last b' ' (codes "OK") (omega arith)
    last closed = unfold to_string in split_last b' ' (codes "CLOSED") (omega arith)
    last pause = unfold to_string in split_last b' ' (codes "PAUSE") (omega arith)
    last resume = unfold to_string in split_last b' ' (codes "RESUME") (omega arith)

state_utf8 :
    (id : Bytes) (s : ConnectionState) → IsConnId id → is_utf8 (connect_state_build id s) ≡ true
unfolding connect_state_build
state_utf8 id s v =
    is_utf8-append (codes "CONNECTION ") _ (is_utf8-ascii (codes "CONNECTION ") (omega arith))
    ∙ is_utf8-append id _ v.utf8
    ∙ is_utf8-ascii (b' ' ∷ to_string s) (omega arith, last s)
  where
    last : (s : ConnectionState) → IsAscii (to_string s)
    last ok_state = unfold to_string in omega arith
    last closed = unfold to_string in omega arith
    last pause = unfold to_string in omega arith
    last resume = unfold to_string in omega arith

-- The state of a connection is read back, by its own parser.
connect_state_parse-build :
    (id : Bytes) (s : ConnectionState)
    → IsConnId id
    → connect_state_parse (connect_state_build id s) ≡ ok (id, s)
unfolding connect_state_parse from_utf8 bytes_eq
connect_state_parse-build id s v =
    let parts = state_parts id s v in
    let utf8 = state_utf8 id s v in
    unfold connect_state_build in ground (arith, parts, utf8, parse_state-to_string s)

-- The bytes behind a tag and an identifier.
data_parts :
    (id bytes : Bytes) → IsConnId id → (take 6 (id ++ bytes) ≡ id) × (drop 6 (id ++ bytes) ≡ bytes)
data_parts id bytes v = (
  subst (λ n. take n (id ++ bytes) ≡ id) v.six (take-append_length id bytes),
  subst (λ n. drop n (id ++ bytes) ≡ bytes) v.six (drop-append_length id bytes),
)

data_parse-data_build :
    (id bytes : Bytes)
    → IsConnId id
    → bytes ≢ []
    → data_parse (data_build id bytes) ≡ ok (id, bytes)
unfolding data_parse data_build from_utf8
data_parse-data_build id [] v h = absurd (h refl)
data_parse-data_build id (x ∷ bytes) v h =
    let (front, back) = data_parts id (x ∷ bytes) v in
    ground (arith, front, back, v.six, v.utf8, length-append id (x ∷ bytes))

udp_data_parse-udp_data_build :
    (id bytes : Bytes)
    → IsConnId id
    → bytes ≢ []
    → udp_data_parse (udp_data_build id bytes) ≡ ok (id, bytes)
unfolding udp_data_parse udp_data_build from_utf8
udp_data_parse-udp_data_build id [] v h = absurd (h refl)
udp_data_parse-udp_data_build id (x ∷ bytes) v h =
    let (front, back) = data_parts id (x ∷ bytes) v in
    ground (arith, front, back, v.six, v.utf8, length-append id (x ∷ bytes))

module _ (c : Crypto) (passwd : Bytes) (time : ℤ) where
  -- The three authenticated parsers refuse a packet that does not begin with an `A`.
  skip_authenticated :
      (x : ℕ) (s : Bytes) → x ≢ b'A' → parse_packet c passwd time (x ∷ s) ≡ parse_plain (x ∷ s)
  unfolding parse_packet handshake_parse connect_parse udp_connect_parse
  skip_authenticated x s h = ground (arith, parse_authenticated_other c passwd x s h)

  -- A state packet is read as one, with its identifier and its state.
  pub parse_packet-connect_state_build :
      (id : Bytes) (s : ConnectionState)
      → IsConnId id
      → parse_packet c passwd time (connect_state_build id s) ≡ connection_state id s
  unfolding parse_plain
  parse_packet-connect_state_build id s v =
      let parsed = connect_state_parse-build id s v in
      let packet = connect_state_build id s in
      let skipped : parse_packet c passwd time packet ≡ parse_plain packet =
        unfold connect_state_build in skip_authenticated b'C' _ (omega arith) in
      skipped ∙ ground (arith, parsed)

  -- Data is read back with its identifier, if there is any.
  pub parse_packet-data_build :
      (id bytes : Bytes)
      → IsConnId id
      → bytes ≢ []
      → parse_packet c passwd time (data_build id bytes) ≡ payload id bytes
  unfolding parse_plain connect_state_parse bytes_eq
  parse_packet-data_build id bytes v h =
      let parsed = data_parse-data_build id bytes v h in
      let packet = data_build id bytes in
      let skipped : parse_packet c passwd time packet ≡ parse_plain packet =
        unfold data_build in skip_authenticated b'P' (id ++ bytes) (omega arith) in
      skipped ∙ (unfold data_build in ground (arith, parsed))

  -- So is UDP data.
  pub parse_packet-udp_data_build :
      (id bytes : Bytes)
      → IsConnId id
      → bytes ≢ []
      → parse_packet c passwd time (udp_data_build id bytes) ≡ udp_payload id bytes
  unfolding parse_plain connect_state_parse bytes_eq
  parse_packet-udp_data_build id bytes v h =
      let parsed = udp_data_parse-udp_data_build id bytes v h in
      let packet = udp_data_build id bytes in
      let skipped : parse_packet c passwd time packet ≡ parse_plain packet =
        unfold udp_data_build in skip_authenticated b'U' (id ++ bytes) (omega arith) in
      skipped ∙ (unfold udp_data_build data_parse in ground (arith, parsed))

  -- A packet with no data is not recognized, whatever its six bytes of identifier are.
  pub parse_packet_empty :
      (id : Bytes)
      → length id ≡ 6
      → (parse_packet c passwd time (data_build id []) ≡ unrecognized)
        × (parse_packet c passwd time (udp_data_build id []) ≡ unrecognized)
  unfolding parse_plain connect_state_parse bytes_eq data_parse udp_data_parse data_build
      udp_data_build
  parse_packet_empty id six = (
    skip_authenticated b'P' (id ++ []) (omega arith) ∙ ground (arith, six, length-append id []),
    skip_authenticated b'U' (id ++ []) (omega arith) ∙ ground (arith, six, length-append id []),
  )
