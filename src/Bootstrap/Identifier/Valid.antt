-- ===== src/Bootstrap/Identifier/Valid.antt =====
-- Generated installation ids of pkg/userbootstrap/bootstrap.go are valid.
use re_casa_os_user_service.Prelude.{
  ℕ, ◌<◌, ◌+◌, ◌%◌, Bytes, ◌≡◌, ◌/◌, All, true, arith, ◌∷◌, [], refl, ◌==◌, length, ◌||◌,
}
use re_casa_os_user_service.Bootstrap.Identifier.{
  hex_digit, all_hex, is_hex, hex_encode, valid_installation_id, installation_id_of, dashed,
}

hex_digit-is_hex : (n : ℕ) → n < 16 → is_hex (hex_digit n) ≡ true
unfolding is_hex hex_digit
hex_digit-is_hex n h = ground arith

version_digit : (b : ℕ) → hex_digit ((64 + b % 16) / 16) ≡ 52
unfolding hex_digit
version_digit b = let e : (64 + b % 16) / 16 ≡ 4 = omega arith in rw e refl

all_hex-hex_encode : (v : Bytes) → All (λ b. b < 256) v → all_hex (hex_encode v) ≡ true
unfolding all_hex hex_encode
all_hex-hex_encode [] a = refl
all_hex-hex_encode (b ∷ bs) a =
    ground (arith, hex_digit-is_hex (b / 16), hex_digit-is_hex (b % 16), all_hex-hex_encode bs a.1)

hex_pair :
    (b : ℕ) → b < 256 → (is_hex (hex_digit (b / 16)) ≡ true) × (is_hex (hex_digit (b % 16)) ≡ true)
hex_pair b h = (hex_digit-is_hex (b / 16) (omega arith), hex_digit-is_hex (b % 16) (omega arith))

variant_digit :
    (b : ℕ)
    → let d = hex_digit ((128 + b % 64) / 16) in
      (d == b'8' || d == b'9' || d == b'a' || d == b'b') ≡ true
unfolding hex_digit
variant_digit b = ground arith

valid_of_bytes :
    (b0 b1 b2 b3 b4 b5 b6 b7 b8 b9 b10 b11 b12 b13 b14 b15 : ℕ)
    → b0 < 256
    → b1 < 256
    → b2 < 256
    → b3 < 256
    → b4 < 256
    → b5 < 256
    → b7 < 256
    → b9 < 256
    → b10 < 256
    → b11 < 256
    → b12 < 256
    → b13 < 256
    → b14 < 256
    → b15 < 256
    → valid_installation_id (
        installation_id_of (
          b0 ∷ b1 ∷ b2 ∷ b3 ∷ b4 ∷ b5 ∷ b6 ∷ b7 ∷ b8 ∷ b9 ∷ b10 ∷ b11 ∷ b12 ∷ b13 ∷ b14 ∷ b15 ∷ []))
      ≡ true
unfolding valid_installation_id installation_id_of dashed hex_encode all_hex
valid_of_bytes b0 b1 b2 b3 b4 b5 b6 b7 b8 b9 b10 b11 b12 b13 b14 b15 h0 h1 h2 h3 h4 h5 h7 h9 h10 h11
      h12 h13 h14 h15 =
    let p0 = hex_pair b0 (omega arith) in
    let p1 = hex_pair b1 (omega arith) in
    let p2 = hex_pair b2 (omega arith) in
    let p3 = hex_pair b3 (omega arith) in
    let p4 = hex_pair b4 (omega arith) in
    let p5 = hex_pair b5 (omega arith) in
    let p6 = hex_pair (64 + b6 % 16) (omega arith) in
    let p7 = hex_pair b7 (omega arith) in
    let p8 = hex_pair (128 + b8 % 64) (omega arith) in
    let p9 = hex_pair b9 (omega arith) in
    let p10 = hex_pair b10 (omega arith) in
    let p11 = hex_pair b11 (omega arith) in
    let p12 = hex_pair b12 (omega arith) in
    let p13 = hex_pair b13 (omega arith) in
    let p14 = hex_pair b14 (omega arith) in
    let p15 = hex_pair b15 (omega arith) in
    rw
      (
        p0.0,
        p0.1,
        p1.0,
        p1.1,
        p2.0,
        p2.1,
        p3.0,
        p3.1,
        p4.0,
        p4.1,
        p5.0,
        p5.1,
        p6.0,
        p6.1,
        p7.0,
        p7.1,
        p8.0,
        p8.1,
        p9.0,
        p9.1,
        p10.0,
        p10.1,
        p11.0,
        p11.1,
        p12.0,
        p12.1,
        p13.0,
        p13.1,
        p14.0,
        p14.1,
        p15.0,
        p15.1,
        version_digit b6,
        variant_digit b8,
      )
      refl

-- Every installation id that is made from 16 random bytes is valid.
pub installation_id_of-valid :
    (v : Bytes)
    → length v ≡ 16
    → All (λ b. b < 256) v
    → valid_installation_id (installation_id_of v) ≡ true
installation_id_of-valid [] h a = absurd (omega arith)
installation_id_of-valid (b0 ∷ []) h a = absurd (omega arith)
installation_id_of-valid (b0 ∷ b1 ∷ []) h a = absurd (omega arith)
installation_id_of-valid (b0 ∷ b1 ∷ b2 ∷ []) h a = absurd (omega arith)
installation_id_of-valid (b0 ∷ b1 ∷ b2 ∷ b3 ∷ []) h a = absurd (omega arith)
installation_id_of-valid (b0 ∷ b1 ∷ b2 ∷ b3 ∷ b4 ∷ []) h a = absurd (omega arith)
installation_id_of-valid (b0 ∷ b1 ∷ b2 ∷ b3 ∷ b4 ∷ b5 ∷ []) h a = absurd (omega arith)
installation_id_of-valid (b0 ∷ b1 ∷ b2 ∷ b3 ∷ b4 ∷ b5 ∷ b6 ∷ []) h a = absurd (omega arith)
installation_id_of-valid (b0 ∷ b1 ∷ b2 ∷ b3 ∷ b4 ∷ b5 ∷ b6 ∷ b7 ∷ []) h a = absurd (omega arith)
installation_id_of-valid (b0 ∷ b1 ∷ b2 ∷ b3 ∷ b4 ∷ b5 ∷ b6 ∷ b7 ∷ b8 ∷ []) h a =
    absurd (omega arith)
installation_id_of-valid (b0 ∷ b1 ∷ b2 ∷ b3 ∷ b4 ∷ b5 ∷ b6 ∷ b7 ∷ b8 ∷ b9 ∷ []) h a =
    absurd (omega arith)
installation_id_of-valid (b0 ∷ b1 ∷ b2 ∷ b3 ∷ b4 ∷ b5 ∷ b6 ∷ b7 ∷ b8 ∷ b9 ∷ b10 ∷ []) h a =
    absurd (omega arith)
installation_id_of-valid (b0 ∷ b1 ∷ b2 ∷ b3 ∷ b4 ∷ b5 ∷ b6 ∷ b7 ∷ b8 ∷ b9 ∷ b10 ∷ b11 ∷ []) h a =
    absurd (omega arith)
installation_id_of-valid (b0 ∷ b1 ∷ b2 ∷ b3 ∷ b4 ∷ b5 ∷ b6 ∷ b7 ∷ b8 ∷ b9 ∷ b10 ∷ b11 ∷ b12 ∷ []) h
      a =
    absurd (omega arith)
installation_id_of-valid
      (b0 ∷ b1 ∷ b2 ∷ b3 ∷ b4 ∷ b5 ∷ b6 ∷ b7 ∷ b8 ∷ b9 ∷ b10 ∷ b11 ∷ b12 ∷ b13 ∷ []) h a =
    absurd (omega arith)
installation_id_of-valid
      (b0 ∷ b1 ∷ b2 ∷ b3 ∷ b4 ∷ b5 ∷ b6 ∷ b7 ∷ b8 ∷ b9 ∷ b10 ∷ b11 ∷ b12 ∷ b13 ∷ b14 ∷ []) h a =
    absurd (omega arith)
installation_id_of-valid
      (b0 ∷ b1 ∷ b2 ∷ b3 ∷ b4 ∷ b5 ∷ b6 ∷ b7 ∷ b8 ∷ b9 ∷ b10 ∷ b11 ∷ b12 ∷ b13 ∷ b14 ∷ b15 ∷ x ∷ xs)
      h a =
    absurd (omega arith)
installation_id_of-valid
      (b0 ∷ b1 ∷ b2 ∷ b3 ∷ b4 ∷ b5 ∷ b6 ∷ b7 ∷ b8 ∷ b9 ∷ b10 ∷ b11 ∷ b12 ∷ b13 ∷ b14 ∷ b15 ∷ []) h
      a =
    valid_of_bytes b0 b1 b2 b3 b4 b5 b6 b7 b8 b9 b10 b11 b12 b13 b14 b15 a.0 a.1.0 a.1.1.0 a.1.1.1.0
      a.1.1.1.1.0 a.1.1.1.1.1.0 a.1.1.1.1.1.1.1.0 a.1.1.1.1.1.1.1.1.1.0 a.1.1.1.1.1.1.1.1.1.1.0
      a.1.1.1.1.1.1.1.1.1.1.1.0 a.1.1.1.1.1.1.1.1.1.1.1.1.0 a.1.1.1.1.1.1.1.1.1.1.1.1.1.0
      a.1.1.1.1.1.1.1.1.1.1.1.1.1.1.0 a.1.1.1.1.1.1.1.1.1.1.1.1.1.1.1.0
