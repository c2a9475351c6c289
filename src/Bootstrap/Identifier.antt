-- ===== src/Bootstrap/Identifier.antt =====
-- pkg/userbootstrap/bootstrap.go: installation ids, which are version 4 UUIDs in lower case.
pub mod Valid
use re_casa_os_user_service.Prelude.{
  ℕ, zero, suc, ◌+◌, ◌/◌, ◌%◌, Bytes, codes, Bool, true, ◌&&◌, ◌||◌, [], ◌∷◌, ◌++◌, ltb, leb, ◌==◌,
  length, take, drop, if◌then◌else◌,
}

unfoldable pub hex_digit : ℕ → ℕ
hex_digit n = if ltb n 10 then 48 + n else 87 + n

-- hex.EncodeToString
unfoldable pub hex_encode : Bytes → Bytes
hex_encode [] = []
hex_encode (b ∷ bs) = hex_digit (b / 16) ∷ hex_digit (b % 16) ∷ hex_encode bs

unfoldable pub is_hex : ℕ → Bool
is_hex c = (leb b'0' c && leb c b'9') || (leb b'a' c && leb c b'f') || (leb b'A' c && leb c b'F')

unfoldable pub all_hex : Bytes → Bool
all_hex [] = true
all_hex (c ∷ cs) = is_hex c && all_hex cs

-- The byte at an index that is in range.
abbrev pub byte_at : Bytes → ℕ → ℕ
byte_at [] i = 0
byte_at (b ∷ bs) zero = b
byte_at (b ∷ bs) (suc i) = byte_at bs i

abbrev pub set_byte : Bytes → ℕ → ℕ → Bytes
set_byte [] i v = []
set_byte (b ∷ bs) zero v = v ∷ bs
set_byte (b ∷ bs) (suc i) v = b ∷ set_byte bs i v

-- The slice s[i:j].
abbrev pub slice : ℕ → ℕ → Bytes → Bytes
slice i n s = take n (drop i s)

-- (v & 0x0f) | 0x40 and (v & 0x3f) | 0x80 on a byte.
abbrev pub versioned : Bytes → Bytes
versioned v = set_byte (set_byte v 6 (64 + byte_at v 6 % 16)) 8 (128 + byte_at v 8 % 64)

unfoldable pub dashed : Bytes → Bytes
dashed e =
    slice 0 8 e
    ++ (codes "-"
        ++ (slice 8 4 e
            ++ (codes "-"
                ++ (slice 12 4 e
                    ++ (codes "-" ++ (slice 16 4 e ++ (codes "-" ++ slice 20 12 e)))))))

-- The id made from the 16 bytes that the random source gives.
unfoldable pub installation_id_of : Bytes → Bytes
installation_id_of value = dashed (hex_encode (versioned value))

-- hex.DecodeString succeeds on an even number of hex digits; `compact` has 32 of them.
unfoldable pub valid_installation_id : Bytes → Bool
valid_installation_id v =
    length v == 36
    && byte_at v 8 == b'-'
    && byte_at v 13 == b'-'
    && byte_at v 18 == b'-'
    && byte_at v 23 == b'-'
    && all_hex (slice 0 8 v ++ (slice 9 4 v ++ (slice 14 4 v ++ (slice 19 4 v ++ slice 24 12 v))))
    && byte_at v 14 == b'4'
    && (byte_at v 19 == b'8'
        || byte_at v 19 == b'9'
        || byte_at v 19 == b'a'
        || byte_at v 19 == b'b')
