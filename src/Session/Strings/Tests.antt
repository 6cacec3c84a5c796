-- ===== src/Session/Strings/Tests.antt =====
-- A session in data centre 2 with a short key; addresses are their own four bytes.
use telegram_mcub_go.Base.{
  ◌==◌, ◌≡◌, refl, inl, [], ◌∷◌, arith, Option, none, some, if◌then◌else◌, length, pos,
}
use telegram_mcub_go.Session.Strings.{
  StringSession, ok, err, unsupported_version, bad_length, parse_string, encode,
}
use telegram_mcub_go.Session.Strings.Base64.{Bytes, url_encode}
use telegram_mcub_go.Session.Strings.RoundTrip.{kept, parse_string-encode, parse_string-rejects}

abbrev address : Bytes
address = 149 ∷ 154 ∷ 167 ∷ 51 ∷ []

abbrev four_bytes : Bytes → Option Bytes
four_bytes s = if length s == 4 then some s else none

abbrev same : Bytes → Bytes
same s = s

abbrev short_session : StringSession
short_session = record {
  dc_id = pos 2;
  server_addr = address;
  port = pos 443;
  auth_key = 7 ∷ 8 ∷ [];
}

parse_string-encode_example :
    parse_string same (encode four_bytes short_session) ≡ ok (kept same short_session address)
parse_string-encode_example =
    parse_string-encode four_bytes same short_session address (λ e. cc)
      (omega arith, (omega arith, tt)) refl (inl refl)
      (omega arith, (omega arith, (omega arith, (omega arith, tt))))

parse_string-rejects_example :
    (parse_string same (0x32 ∷ []) ≡ err (unsupported_version 0x32))
    × (parse_string same (0x31 ∷ url_encode address) ≡ err (bad_length (length address)))
parse_string-rejects_example =
    parse_string-rejects same 0x32 [] address (omega arith)
      (omega arith, (omega arith, (omega arith, (omega arith, tt)))) (omega arith) (omega arith)
