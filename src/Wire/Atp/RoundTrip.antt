-- ===== src/Wire/Atp/RoundTrip.antt =====
-- Transaction packets written and read back, and the flags of those that are built (src/wire/atp.rs).
use appletalk.Prelude.{ℕ, ◌≡◌, refl, Bool, true, false, Option, none, some, List, is_some}
use appletalk.Prelude.Bytes.{IsU16, from_be-bytes}
use appletalk.Wire.Atp.{
  TrelTimeout, s30, m1, m2, m4, m8, Atp, UserBytes, func_of, parse, encode, xo, eom, sts,
  request_control, new_request, response_control, response,
}

-- The function is the one in the control byte, which is what goes on the wire.
pub record IsPacket (a : Atp) : Type 0 where
  pub func : func_of a.control ≡ some a.func
  pub tid : IsU16 a.tid

-- A packet whose function is that of its control byte is read back.
pub parse-encode_atp : (a : Atp) → IsPacket a → parse (encode a) ≡ some a
unfolding parse encode
parse-encode_atp a v = rw (v.func, from_be-bytes a.tid v.tid)

-- The constructors make such packets, and their flags are those asked for.
pub new_request-IsPacket :
    (tid bitmap : ℕ) (timeout : Option TrelTimeout) (user_bytes : UserBytes) (bytes : List ℕ)
    → IsU16 tid
    → let a = new_request tid bitmap timeout user_bytes bytes in
      IsPacket a × (xo a ≡ is_some timeout)
unfolding new_request request_control func_of xo
new_request-IsPacket tid bitmap none user_bytes bytes h = (record { func = refl; tid = h }, refl)
new_request-IsPacket tid bitmap (some s30) user_bytes bytes h =
    (record { func = refl; tid = h }, refl)
new_request-IsPacket tid bitmap (some m1) user_bytes bytes h =
    (record { func = refl; tid = h }, refl)
new_request-IsPacket tid bitmap (some m2) user_bytes bytes h =
    (record { func = refl; tid = h }, refl)
new_request-IsPacket tid bitmap (some m4) user_bytes bytes h =
    (record { func = refl; tid = h }, refl)
new_request-IsPacket tid bitmap (some m8) user_bytes bytes h =
    (record { func = refl; tid = h }, refl)

pub response-IsPacket :
    (tid seq : ℕ) (last status : Bool) (user_bytes : UserBytes) (bytes : List ℕ)
    → IsU16 tid
    → let a = response tid seq last status user_bytes bytes in
      IsPacket a × (eom a ≡ last) × (sts a ≡ status)
unfolding response response_control func_of eom sts
response-IsPacket tid seq true true user_bytes bytes h =
    (record { func = refl; tid = h }, refl, refl)
response-IsPacket tid seq true false user_bytes bytes h =
    (record { func = refl; tid = h }, refl, refl)
response-IsPacket tid seq false true user_bytes bytes h =
    (record { func = refl; tid = h }, refl, refl)
response-IsPacket tid seq false false user_bytes bytes h =
    (record { func = refl; tid = h }, refl, refl)

-- A response that is built with a 16-bit transaction number is read back from its bytes as it was
-- built, and its end and status flags are those that it was built with.
pub response-parse :
    (tid seq : ℕ) (last status : Bool) (user_bytes : UserBytes) (bytes : List ℕ)
    → IsU16 tid
    → let a = response tid seq last status user_bytes bytes in
      (parse (encode a) ≡ some a) × (eom a ≡ last) × (sts a ≡ status)
response-parse tid seq last status user_bytes bytes h =
    let (v, e, s) = response-IsPacket tid seq last status user_bytes bytes h in
    (parse-encode_atp _ v, e, s)
