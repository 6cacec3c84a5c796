-- ===== src/Session/Strings/RoundTrip.antt =====
-- What ParseString makes of what Encode gives.
use telegram_mcub_go.Base.{
  ℕ, suc, ◌+◌, ◌*◌, ◌/◌, ◌%◌, ◌==◌, ◌<◌, ◌≡◌, ◌≢◌, refl, ap, ap₂, ◌∙◌, sym, ◌⊎◌, inl, inr, [], ◌∷◌,
  ◌++◌, append_assoc, All, All-append, All-take, All-replicate, arith, false, Option, some, length,
  length-append, length-take, length-replicate, take, drop, replicate, get_elem?,
  take-length_append, drop-length_append, ℤ, pos, negsuc,
}
use telegram_mcub_go.Session.Strings.{
  StringSession, ok, err, unsupported_version, bad_length, encode_with, encode_keyed, parse_either,
  wrap, auth_key_block, unpack, parse_payload, parse_encoded, parse_string, pack, encode, byte_at,
  or_zero,
}
use telegram_mcub_go.Session.Strings.Base64.{Bytes, url_encode, raw_url_decode}
use telegram_mcub_go.Session.Strings.Base64.Codec.{IsByte, url_decode-url_encode}

get_elem?-length : (xs : Bytes) (y : ℕ) (ys : Bytes) → get_elem? (xs ++ y ∷ ys) (length xs) ≡ some y
get_elem?-length [] y ys = refl
get_elem?-length (x ∷ xs) y ys = get_elem?-length xs y ys

get_elem?-next :
    (xs : Bytes) (y z : ℕ) (ys : Bytes) → get_elem? (xs ++ y ∷ z ∷ ys) (suc (length xs)) ≡ some z
get_elem?-next [] y z ys = refl
get_elem?-next (x ∷ xs) y z ys = get_elem?-next xs y z ys

length-auth_key_block : (key : Bytes) → length (auth_key_block key) ≡ 256
unfolding auth_key_block
length-auth_key_block key = omega (
  arith,
  length-take 256 (key ++ replicate 256 0),
  length-append key (replicate 256 0),
  length-replicate {A = ℕ} 256 0,
)

auth_key_block_idem : (key : Bytes) → auth_key_block (auth_key_block key) ≡ auth_key_block key
unfolding auth_key_block
auth_key_block_idem key =
    let block = auth_key_block key in
    ap (λ n. take n (block ++ replicate 256 0)) (sym (length-auth_key_block key))
    ∙ take-length_append block (replicate 256 0)

byte-lt : (z : ℤ) → wrap 256 z < 256
byte-lt (pos n) = omega arith
byte-lt (negsuc n) = omega arith

port-lt : (z : ℤ) → wrap 0x10000 z < 0x10000
port-lt (pos n) = omega arith
port-lt (negsuc n) = omega arith

auth_key_block-IsByte : (key : Bytes) → All IsByte key → All IsByte (auth_key_block key)
unfolding auth_key_block
auth_key_block-IsByte key h =
    All-take IsByte 256 (key ++ replicate 256 0)
      (All-append IsByte key (replicate 256 0) h (All-replicate IsByte 256 0 (omega arith)))

module _ (ip_string : Bytes → Bytes) (s : StringSession) (ip : Bytes) where
  -- The session that is read back.
  abbrev pub kept : StringSession
  kept = record {
    dc_id = pos (wrap 256 s.dc_id);
    server_addr = ip_string ip;
    port = pos (wrap 0x10000 s.port);
    auth_key = auth_key_block s.auth_key;
  }

  length-pack : length (pack s ip) ≡ length ip + 259
  unfolding pack
  length-pack =
      let port = wrap 0x10000 s.port in
      omega (
        arith,
        length-append ip (port / 256 ∷ port % 256 ∷ auth_key_block s.auth_key),
        length-auth_key_block s.auth_key,
      )

  unpack-pack : unpack ip_string (length ip) (pack s ip) ≡ kept
  unfolding unpack pack
  unpack-pack =
      let port = wrap 0x10000 s.port in
      let block = auth_key_block s.auth_key in
      let behind = port / 256 ∷ port % 256 ∷ block in
      let raw : Bytes = wrap 256 s.dc_id ∷ (ip ++ behind) in
      let n = length ip in
      let one : 1 + n ≡ suc n = omega arith in
      let two : 2 + n ≡ suc (suc n) = omega arith in
      let high : byte_at (1 + n) raw ≡ port / 256 =
        ap (λ m. byte_at m raw) one
        ∙ ap (λ (o : Option ℕ). or_zero o)
            (get_elem?-length ip (port / 256) (port % 256 ∷ block)) in
      let low : byte_at (2 + n) raw ≡ port % 256 =
        ap (λ m. byte_at m raw) two
        ∙ ap (λ (o : Option ℕ). or_zero o) (get_elem?-next ip (port / 256) (port % 256) block) in
      let three : 3 + n ≡ suc (length (ip ++ port / 256 ∷ port % 256 ∷ [])) =
        omega (arith, length-append ip (port / 256 ∷ port % 256 ∷ [])) in
      let key : drop (3 + n) raw ≡ block =
        ap (λ m. drop m raw) three
        ∙ (ap (drop (length (ip ++ port / 256 ∷ port % 256 ∷ [])))
              (sym (append_assoc ip (port / 256 ∷ port % 256 ∷ []) block))
            ∙ drop-length_append (ip ++ port / 256 ∷ port % 256 ∷ []) block) in
      let sum : 256 * byte_at (1 + n) raw + byte_at (2 + n) raw ≡ port =
        ap₂ (λ x y. 256 * x + y) high low ∙ omega arith in
      kept-path (ap ip_string (take-length_append ip behind)) (ap pos sum)
        (ap auth_key_block key ∙ auth_key_block_idem s.auth_key)
    where
      kept-path :
          {addr addr' : Bytes} {p p' : ℤ} {key key' : Bytes}
          → addr ≡ addr'
          → p ≡ p'
          → key ≡ key'
          → ◌≡◌ {A = StringSession}
              (record {
                dc_id = pos (wrap 256 s.dc_id);
                server_addr = addr;
                port = p;
                auth_key = key;
              })
              (record {
                dc_id = pos (wrap 256 s.dc_id);
                server_addr = addr';
                port = p';
                auth_key = key';
              })
      kept-path e f g = λ k. record {
        dc_id = pos (wrap 256 s.dc_id);
        server_addr = e k;
        port = f k;
        auth_key = g k;
      }

  pack-IsByte : All IsByte ip → All IsByte s.auth_key → All IsByte (pack s ip)
  unfolding pack
  pack-IsByte h k =
      let port = wrap 0x10000 s.port in
      let small = port-lt s.port in
      (
        byte-lt s.dc_id,
        All-append IsByte ip _ h (omega arith, (omega arith, auth_key_block-IsByte s.auth_key k)),
      )

  parse_payload-pack :
      (length ip ≡ 4) ⊎ (length ip ≡ 16) → parse_payload ip_string (pack s ip) ≡ ok kept
  unfolding parse_payload
  parse_payload-pack (inl four) =
      let e : length (pack s ip) ≡ 263 = omega (arith, length-pack) in
      rw e (ap ok (ap (λ n. unpack ip_string n (pack s ip)) (sym four) ∙ unpack-pack))
  parse_payload-pack (inr sixteen) =
      let e : length (pack s ip) ≡ 275 = omega (arith, length-pack) in
      rw e (ap ok (ap (λ n. unpack ip_string n (pack s ip)) (sym sixteen) ∙ unpack-pack))

parse_encoded-url_encode :
    (ip_string : Bytes → Bytes) (raw : Bytes)
    → All IsByte raw
    → parse_encoded ip_string (url_encode raw) ≡ parse_payload ip_string raw
unfolding parse_encoded
parse_encoded-url_encode ip_string raw h =
    ap (λ o. parse_either ip_string o (raw_url_decode (url_encode raw)))
      (url_decode-url_encode raw h)

encode_keyed-some :
    (key : Bytes) (s : StringSession) (o : Option Bytes)
    → key ≢ []
    → encode_keyed key s o ≡ encode_with s o
encode_keyed-some [] s o h = absurd (h refl)
encode_keyed-some (k ∷ key) s o h = refl

encode-pack :
    (parse_ip : Bytes → Option Bytes) (s : StringSession) (ip : Bytes)
    → s.auth_key ≢ []
    → parse_ip s.server_addr ≡ some ip
    → encode parse_ip s ≡ 0x31 ∷ url_encode (pack s ip)
unfolding encode
encode-pack parse_ip s ip h e =
    ap (encode_keyed s.auth_key s) e ∙ encode_keyed-some s.auth_key s (some ip) h

-- For every reading and printing of addresses: ParseString of what Encode gives of a session with a key,
-- whose address is read as 4 or 16 bytes, has the low byte of the data centre's number, the printed
-- address, the low 16 bits of the port, and the key cut or filled with zeros to 256 bytes.
pub parse_string-encode :
    (parse_ip : Bytes → Option Bytes) (ip_string : Bytes → Bytes) (s : StringSession) (ip : Bytes)
    → s.auth_key ≢ []
    → All IsByte s.auth_key
    → parse_ip s.server_addr ≡ some ip
    → (length ip ≡ 4) ⊎ (length ip ≡ 16)
    → All IsByte ip
    → parse_string ip_string (encode parse_ip s) ≡ ok (kept ip_string s ip)
unfolding parse_string
parse_string-encode parse_ip ip_string s ip nonempty key e len h =
    ap (parse_string ip_string) (encode-pack parse_ip s ip nonempty e)
    ∙ (parse_encoded-url_encode ip_string (pack s ip) (pack-IsByte ip_string s ip h key)
        ∙ parse_payload-pack ip_string s ip len)

-- ParseString rejects a string with another first character than 1, with that character, and an encoding
-- of so many bytes as no session has, with their number.
pub parse_string-rejects :
    (ip_string : Bytes → Bytes) (v : ℕ) (rest raw : Bytes)
    → v ≢ 0x31
    → All IsByte raw
    → length raw ≢ 263
    → length raw ≢ 275
    → (parse_string ip_string (v ∷ rest) ≡ err (unsupported_version v))
      × (parse_string ip_string (0x31 ∷ url_encode raw) ≡ err (bad_length (length raw)))
unfolding parse_string
parse_string-rejects ip_string v rest raw other h k l =
    let a : (v == 0x31) ≡ false = ground arith in
    let b : (length raw == 263) ≡ false = ground arith in
    let c : (length raw == 275) ≡ false = ground arith in
    (rw a refl, parse_encoded-url_encode ip_string raw h ∙ (unfold parse_payload in rw (b, c) refl))
