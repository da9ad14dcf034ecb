-- ===== src/Wire/Atp.antt =====
-- src/wire/atp.rs: transaction packets. `encode` returns the bytes that the source appends.
pub mod RoundTrip
use appletalk.Prelude.{
  ℕ, Bool, true, false, not, bit_and, bit_or, Option, none, some, List, [], ◌∷◌, ◌==◌, ◌>>=◌,
  if◌then◌else◌,
}
use appletalk.Prelude.Bytes.{from_be, hi_byte, lo_byte}

pub data Func : Type 0 where
  req resp rel : Func

pub data TrelTimeout : Type 0 where
  s30 m1 m2 m4 m8 : TrelTimeout

unfoldable pub bits : TrelTimeout → ℕ
bits s30 = 0
bits m1 = 1
bits m2 = 2
bits m4 = 3
bits m8 = 4

abbrev pub UserBytes : Type 0
UserBytes = ℕ × ℕ × ℕ × ℕ

pub record Atp : Type 0 where
  pub func : Func
  pub control : ℕ
  pub bitmap : ℕ
  pub tid : ℕ
  pub user_bytes : UserBytes
  pub bytes : List ℕ

-- The top two bits of the control byte; 00 is reserved.
unfoldable pub func_of : ℕ → Option Func
func_of control =
    let top = bit_and control 0xc0 in
    if top == 0x40
    then some req
    else if top == 0x80
    then some resp
    else if top == 0xc0
    then some rel
    else none

unfoldable pub parse : List ℕ → Option Atp
parse (h0 ∷ h1 ∷ h2 ∷ h3 ∷ h4 ∷ h5 ∷ h6 ∷ h7 ∷ rest) = do
  func ← func_of h0
  some (record {
    func = func;
    control = h0;
    bitmap = h1;
    tid = from_be h2 h3;
    user_bytes = (h4, h5, h6, h7);
    bytes = rest;
  })
parse _ = none

unfoldable pub xo : Atp → Bool
xo a = not (bit_and a.control 0x20 == 0)

unfoldable pub eom : Atp → Bool
eom a = not (bit_and a.control 0x10 == 0)

unfoldable pub sts : Atp → Bool
sts a = not (bit_and a.control 0x08 == 0)

unfoldable pub request_control : Option TrelTimeout → ℕ
unfolding bits
request_control none = 0x40
request_control (some t) = bit_or 0x40 (bit_or 0x20 (bits t))

unfoldable pub new_request : ℕ → ℕ → Option TrelTimeout → UserBytes → List ℕ → Atp
new_request tid bitmap timeout user_bytes bytes = record {
  func = req;
  control = request_control timeout;
  bitmap = bitmap;
  tid = tid;
  user_bytes = user_bytes;
  bytes = bytes;
}

unfoldable pub response_control : Bool → Bool → ℕ
response_control last status =
    let control = if last then bit_or 0x80 0x10 else 0x80 in
    if status then bit_or control 0x08 else control

unfoldable pub response : ℕ → ℕ → Bool → Bool → UserBytes → List ℕ → Atp
response tid seq last status user_bytes bytes = record {
  func = resp;
  control = response_control last status;
  bitmap = seq;
  tid = tid;
  user_bytes = user_bytes;
  bytes = bytes;
}

unfoldable pub release : ℕ → Atp
release tid = record {
  func = rel;
  control = 0xc0;
  bitmap = 0;
  tid = tid;
  user_bytes = (0, 0, 0, 0);
  bytes = [];
}

unfoldable pub encode : Atp → List ℕ
encode a =
    a.control
    ∷ a.bitmap
    ∷ hi_byte a.tid
    ∷ lo_byte a.tid
    ∷ a.user_bytes.0
    ∷ a.user_bytes.1
    ∷ a.user_bytes.2
    ∷ a.user_bytes.3
    ∷ a.bytes
