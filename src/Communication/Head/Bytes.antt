-- ===== src/Communication/Head/Bytes.antt =====
-- The bytes of a head stand for that head.
use osa_base.Base.{
  of_u32, ℕ, ◌+◌, ◌*◌, ◌/◌, ◌%◌, ◌<◌, ◌≡◌, refl, length, ℤ, pos, negsuc, to_u32, arith,
}
use osa_base.Communication.Head.{ComMsgHead, head_bytes, head_of}

-- the range of an `int`
abbrev pub IsInt : ℤ → Type 0
IsInt (pos n) = n < 2147483648
IsInt (negsuc n) = n < 2147483648

byte_sum :
    (u : ℕ)
    → u < 4294967296
    → u % 256 + 256 * (u / 256 % 256) + 65536 * (u / 65536 % 256) + 16777216 * (u / 16777216 % 256)
      ≡ u
byte_sum u h = omega arith

of_u32-to_u32 : (z : ℤ) → IsInt z → of_u32 (to_u32 z) ≡ z
of_u32-to_u32 (pos n) h = ground arith
of_u32-to_u32 (negsuc n) h = ground arith

to_u32_lt : (z : ℤ) → to_u32 z < 4294967296
to_u32_lt (pos n) = omega arith
to_u32_lt (negsuc n) = omega arith

int_back :
    (z : ℤ)
    → IsInt z
    → (let u = to_u32 z in
        of_u32 (
          u % 256
          + 256 * (u / 256 % 256)
          + 65536 * (u / 65536 % 256)
          + 16777216 * (u / 16777216 % 256)))
      ≡ z
int_back z h = rw (byte_sum (to_u32 z) (to_u32_lt z)) (of_u32-to_u32 z h)

pub length-head_bytes : (h : ComMsgHead) → length (head_bytes h) ≡ 16
unfolding head_bytes
length-head_bytes h = refl

-- The bytes of a head whose members are `int`s, read as a head again.
pub head_of-head_bytes :
    (h : ComMsgHead)
    → IsInt h.load_len
    → IsInt h.msg_code
    → IsInt h.reserve
    → head_of (head_bytes h) ≡ h
unfolding head_of head_bytes
head_of-head_bytes h a b c = λ i. record {
  identifier = h.identifier;
  load_len = int_back h.load_len a i;
  msg_code = int_back h.msg_code b i;
  reserve = int_back h.reserve c i;
}
