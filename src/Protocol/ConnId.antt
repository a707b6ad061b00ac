-- ===== src/Protocol/ConnId.antt =====
-- The identifiers of logical connections that the packets can carry.
use tws_rust.Prelude.{◌≡◌, true, length}
use tws_rust.Text.Bytes.{Bytes, Lacks, newline}
use tws_rust.Text.Utf8.{is_utf8}
use tws_rust.Text.Split.{EndsPlain}

-- Six bytes of text with no space and no line break.
pub record IsConnId (id : Bytes) : Type 0 where
  pub six : length id ≡ 6
  pub utf8 : is_utf8 id ≡ true
  pub no_space : Lacks b' ' id
  pub one_line : Lacks newline id
  pub plain : EndsPlain id
