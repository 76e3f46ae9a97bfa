-- ===== src/Bridge/Proto/Frame.antt =====
-- The length prefix of components/nev_bridge/src/nev_proto.c: nev_proto_frame_wrap and
-- nev_proto_frame_split.
use nev_os.Base.{
  ℕ, ◌+◌, ◌-◌, ◌*◌, ◌/◌, ◌%◌, ◌^◌, List, [], ◌∷◌, ltb, if◌then◌else◌, length, get_or, take, drop,
  u8_mod,
}
use nev_os.Base.{copy}

pub data Split (A : Type 0) : Type 0 where
  frame : A → Split A
  timeout no_space : Split A

abbrev pub max_frame : ℕ
max_frame = 8192

abbrev pub frame_header : ℕ
frame_header = 4

-- The four bytes of the length, highest first.
abbrev pub prefix : ℕ → List ℕ
prefix n = n / 2 ^ 24 % u8_mod ∷ n / 2 ^ 16 % u8_mod ∷ n / 2 ^ 8 % u8_mod ∷ n % u8_mod ∷ []

-- The buffer after it and the length of the frame.
unfoldable pub frame_wrap : List ℕ → List ℕ → ℕ → Split (List ℕ × ℕ)
frame_wrap payload buf cap =
    if ltb max_frame (length payload)
    then no_space
    else if ltb cap (length payload + frame_header)
    then no_space
    else frame (
      copy (copy buf 0 (prefix (length payload))) frame_header payload,
      length payload + frame_header,
    )

abbrev pub declared : List ℕ → ℕ
declared buf =
    get_or buf 0 0 * 2 ^ 24 + get_or buf 1 0 * 2 ^ 16 + get_or buf 2 0 * 2 ^ 8 + get_or buf 3 0

-- The payload, and the length of the frame. Fewer bytes than a frame are answered with
-- NEV_ERR_TIMEOUT: more are needed.
unfoldable pub frame_split : List ℕ → Split (List ℕ × ℕ)
frame_split buf =
    if ltb (length buf) frame_header
    then timeout
    else if ltb max_frame (declared buf)
    then no_space
    else if ltb (length buf - frame_header) (declared buf)
    then timeout
    else frame (take (declared buf) (drop frame_header buf), declared buf + frame_header)
