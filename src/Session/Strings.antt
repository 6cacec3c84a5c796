-- ===== src/Session/Strings.antt =====
-- session/session.go, StringSession, over Go's encoding/base64 and encoding/binary. A string is the list
-- of its bytes. Package net is a parameter: its reading of an address to 4 or 16 bytes, as Encode takes
-- it by To4 and To16, and its printing of them.
pub mod Base64
pub mod RoundTrip
mod Tests
use telegram_mcub_go.Base.{
  ℕ, zero, suc, ◌+◌, ◌*◌, ◌/◌, ◌%◌, ◌==◌, List, [], ◌∷◌, ◌++◌, length, take, drop, replicate,
  Option, none, some, if◌then◌else◌, get_elem?, ℤ, pos, negsuc, ◌-◌,
}
use telegram_mcub_go.Session.Strings.Base64.{Bytes, url_encode, url_decode, raw_url_decode}

pub record StringSession : Type 0 where
  pub dc_id : ℤ
  pub server_addr : Bytes
  pub port : ℤ
  pub auth_key : Bytes

abbrev pub new_string_session : StringSession
new_string_session = record { dc_id = pos 0; server_addr = []; port = pos 0; auth_key = [] }

-- The errors of `ParseString`.
pub data ParseError : Type 0 where
  unsupported_version : ℕ → ParseError
  bad_base64 : ParseError
  bad_length : ℕ → ParseError

pub data Parsed : Type 0 where
  ok : StringSession → Parsed
  err : ParseError → Parsed

-- `make([]byte, 256)` and `copy`
unfoldable pub auth_key_block : Bytes → Bytes
auth_key_block key = take 256 (key ++ replicate 256 0)

-- The conversion of an `int` to an unsigned integer with `m` values, a power of two.
abbrev pub wrap : ℕ → ℤ → ℕ
wrap m (pos n) = n % m
wrap m (negsuc n) = m - 1 - n % m

abbrev pub or_zero : Option ℕ → ℕ
or_zero none = 0
or_zero (some b) = b

-- The byte at a place.
abbrev pub byte_at : ℕ → Bytes → ℕ
byte_at n raw = or_zero (get_elem? raw n)

module _ (ip_string : Bytes → Bytes) where
  -- The payload's fields, after its length has told the address's.
  unfoldable pub unpack : ℕ → Bytes → StringSession
  unpack ip_len raw = record {
    dc_id = pos (byte_at 0 raw);
    server_addr = ip_string (take ip_len (drop 1 raw));
    port = pos (256 * byte_at (1 + ip_len) raw + byte_at (2 + ip_len) raw);
    auth_key = auth_key_block (drop (3 + ip_len) raw);
  }

  unfoldable pub parse_payload : Bytes → Parsed
  parse_payload raw =
      if length raw == 263
      then ok (unpack 4 raw)
      else if length raw == 275
      then ok (unpack 16 raw)
      else err (bad_length (length raw))

  abbrev pub parse_either : Option Bytes → Option Bytes → Parsed
  parse_either (some raw) o = parse_payload raw
  parse_either none (some raw) = parse_payload raw
  parse_either none none = err bad_base64

  -- First with padding, then without.
  unfoldable pub parse_encoded : Bytes → Parsed
  parse_encoded s = parse_either (url_decode s) (raw_url_decode s)

  unfoldable pub parse_string : Bytes → Parsed
  parse_string [] = ok new_string_session
  parse_string (v ∷ s) =
      let session = parse_encoded s in if v == 0x31 then session else err (unsupported_version v)

-- `byte(s.DCID)` and `uint16(s.Port)` keep the low bits.
unfoldable pub pack : StringSession → Bytes → Bytes
pack s ip =
    let port = wrap 0x10000 s.port in
    wrap 256 s.dc_id ∷ (ip ++ (port / 256 ∷ port % 256 ∷ auth_key_block s.auth_key))

abbrev pub encode_with : StringSession → Option Bytes → Bytes
encode_with s none = []
encode_with s (some ip) = 0x31 ∷ url_encode (pack s ip)

abbrev pub encode_keyed : Bytes → StringSession → Option Bytes → Bytes
encode_keyed [] s ip = []
encode_keyed (k ∷ key) s ip = encode_with s ip

unfoldable pub encode : (Bytes → Option Bytes) → StringSession → Bytes
encode parse_ip s = encode_keyed s.auth_key s (parse_ip s.server_addr)
