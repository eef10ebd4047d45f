-- ===== src/Communication/Head.antt =====
-- The heads that communication/osa_communication.c puts before a message and before a frame, how
-- they are made and checked, and the bytes of Com_MsgHead_t in memory: an `int` has four bytes, the
-- lowest first.
pub mod Bytes
use osa_base.Base.{
  of_u32, ℕ, zero, suc, ◌+◌, ◌-◌, ◌*◌, ◌/◌, ◌%◌, ◌^◌, ◌<◌, ◌≡◌, Bool, true, false, not, ◌&&◌,
  Option, none, some, List, [], ◌∷◌, ◌++◌, ◌==◌, ltb, if◌then◌else◌, get_elem?, length, ℤ, pos,
  negsuc, sok, efail, ltb_ℤ, to_u32,
}

-- the four characters of `identifier`, `check_start` and `check_end`
pub record Mark : Type 0 where
  pub first : ℕ
  pub second : ℕ
  pub third : ℕ
  pub fourth : ℕ

-- NET_CHECHK_PC_IDEENTIFIER_FIRST_BIT and the next three: `@#$&`
abbrev pub identifier_mark : Mark
identifier_mark = record { first = b'@'; second = b'#'; third = b'$'; fourth = b'&' }

abbrev pub is_mark : Mark → Bool
is_mark m = m.first == b'@' && m.second == b'#' && m.third == b'$' && m.fourth == b'&'

pub record ComMsgHead : Type 0 where
  pub identifier : Mark
  pub load_len : ℤ
  pub msg_code : ℤ
  pub reserve : ℤ

-- client_check_msgHead; `none` is NULL.
unfoldable pub check_msg_head : Option ComMsgHead → ℤ
check_msg_head none = negsuc 0
check_msg_head (some head) =
    if not (is_mark head.identifier)
    then negsuc 0
    else if not (ltb_ℤ (pos 0) head.load_len)
    then negsuc 0
    else pos 0

-- net_init_msgHead, of a head that is not NULL
unfoldable pub init_msg_head : ComMsgHead → ℤ × ComMsgHead
init_msg_head head = (
  pos 0,
  record { identifier = identifier_mark; load_len = pos 0; msg_code = pos 0; reserve = pos 0 },
)

-- Frame_Head_t; `R` are the members that these functions only copy.
pub record FrameHead (R : Type 0) : Type 0 where
  pub check_start : Mark
  pub n_frame_length : ℕ
  pub others : R
  pub check_end : Mark

module _ {R : Type 0} where
  -- client_check_streamHead; `nFrameLength` is unsigned.
  unfoldable pub check_stream_head : Option (FrameHead R) → ℤ
  check_stream_head none = negsuc 0
  check_stream_head (some head) =
      if not (is_mark head.check_start)
      then negsuc 0
      else if not (is_mark head.check_end)
      then negsuc 0
      else if head.n_frame_length == 0
      then negsuc 0
      else pos 0

  -- net_init_streamHead, of a head that is not NULL
  unfoldable pub init_stream_head : FrameHead R → ℤ × FrameHead R
  init_stream_head head =
      (pos 0, record head { check_start = identifier_mark; check_end = identifier_mark })

-- the bytes of an `int`, and the `int` that four bytes are
abbrev pub int_bytes : ℤ → List ℕ
int_bytes z =
    let u = to_u32 z in (u % 256) ∷ (u / 256 % 256) ∷ (u / 65536 % 256) ∷ (u / 16777216 % 256) ∷ []

-- a byte of memory; there is 0 beyond what is given.
abbrev pub byte_at : List ℕ → ℕ → ℕ
byte_at [] i = 0
byte_at (b ∷ bs) zero = b
byte_at (b ∷ bs) (suc i) = byte_at bs i

abbrev pub int_at : List ℕ → (a b c d : ℕ) → ℤ
int_at bs a b c d =
    of_u32 (byte_at bs a + 256 * byte_at bs b + 65536 * byte_at bs c + 16777216 * byte_at bs d)

-- `(char *)&head`, and `(Com_MsgHead_t *)head_buf`
unfoldable pub head_bytes : ComMsgHead → List ℕ
head_bytes h =
    h.identifier.first
    ∷ h.identifier.second
    ∷ h.identifier.third
    ∷ h.identifier.fourth
    ∷ (int_bytes h.load_len ++ (int_bytes h.msg_code ++ int_bytes h.reserve))

unfoldable pub head_of : List ℕ → ComMsgHead
head_of bs = record {
  identifier = record {
    first = byte_at bs 0;
    second = byte_at bs 1;
    third = byte_at bs 2;
    fourth = byte_at bs 3;
  };
  load_len = int_at bs 4 5 6 7;
  msg_code = int_at bs 8 9 10 11;
  reserve = int_at bs 12 13 14 15;
}
