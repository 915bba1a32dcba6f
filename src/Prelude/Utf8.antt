-- ===== src/Prelude/Utf8.antt =====
-- `std::str::from_utf8`, a byte at a time.
use Prim.Native.Nat.{ℕ, zero, suc, ◌+◌, ◌-◌, ◌*◌}
use mathlib.Core.Path.{◌≡◌, refl}
use mathlib.Core.Bool.{true, false, ◌&&◌}
use mathlib.Core.List.{List, [], ◌∷◌}
use mathlib.Core.Option
use mathlib.Core.Option.{Option, none, some}
use hr.Prelude.Tests.{ltb, leb, ◌==◌, if◌then◌else◌}

-- What a lead byte announces: the continuation bytes to come, the bits it holds, and the range that
-- the next byte must lie in.
pub record Lead : Type 0 where
  pub more : ℕ
  pub point : ℕ
  pub lower : ℕ
  pub upper : ℕ

lead_of : ℕ → Option Lead
lead_of b =
    if ltb b 0x80
    then some (record { more = 0; point = b; lower = 0x80; upper = 0xbf })
    else if leb 0xc2 b && leb b 0xdf
    then some (record { more = 1; point = b - 0xc0; lower = 0x80; upper = 0xbf })
    else if leb 0xe0 b && leb b 0xef
    then some (record {
      more = 2;
      point = b - 0xe0;
      lower = if b == 0xe0 then 0xa0 else 0x80;
      upper = if b == 0xed then 0x9f else 0xbf;
    })
    else if leb 0xf0 b && leb b 0xf4
    then some (record {
      more = 3;
      point = b - 0xf0;
      lower = if b == 0xf0 then 0x90 else 0x80;
      upper = if b == 0xf4 then 0x8f else 0xbf;
    })
    else none

-- `more` continuation bytes are missing of the scalar value whose bits so far are `point`.
decode : ℕ → ℕ → ℕ → ℕ → List ℕ → Option (List ℕ)
unfolding lead_of
decode zero point lower upper [] = some []
decode (suc more) point lower upper [] = none
decode zero point lower upper (b ∷ bs) = elim (lead_of b) [
  | none ↦ none
  | some l ↦ elim l.more [
    | zero ↦ Option.map (◌∷◌ l.point) (decode 0 0 0x80 0xbf bs)
    | suc n ↦ decode (suc n) l.point l.lower l.upper bs
  ]
]
decode (suc more) point lower upper (b ∷ bs) =
    let value = point * 64 + (b - 0x80) in
    elim (leb lower b && leb b upper) [
      | false ↦ none
      | true ↦ elim more [
        | zero ↦ Option.map (◌∷◌ value) (decode 0 0 0x80 0xbf bs)
        | suc n ↦ decode (suc n) value 0x80 0xbf bs
      ]
    ]

unfoldable pub from_utf8 : List ℕ → Option (List ℕ)
unfolding decode
from_utf8 = decode 0 0 0x80 0xbf

decodes : from_utf8 (104 ∷ 0xc3 ∷ 0xa9 ∷ 0xe2 ∷ 0x82 ∷ 0xac ∷ []) ≡ some (104 ∷ 0xe9 ∷ 0x20ac ∷ [])
unfolding from_utf8
decodes = refl

refuses_surrogates : from_utf8 (0xed ∷ 0xa0 ∷ 0x80 ∷ []) ≡ none
unfolding from_utf8
refuses_surrogates = refl
