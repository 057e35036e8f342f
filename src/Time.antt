-- ===== src/Time.antt =====
-- libs/core/src/time.cpp. A stamp is the number of nanoseconds since the epoch, not before it. It is a signed number
-- of 64 bits in C++, where overflow is undefined; the functions below stand for the code as far as no number
-- reaches `2 ^ 63`.
use mapit.Base.{
  Str, ℕ, zero, suc, ◌+◌, ◌-◌, ◌*◌, ◌/◌, ◌%◌, ◌^◌, ◌<◌, ◌≤◌, [], ◌∷◌, ◌++◌, Bool, ◌==◌, ltb,
  if◌then◌else◌, length,
}
use mapit.Base.{◌≡◌, ◌↔◌, refl, arith, ap, ◌∙◌}
use native.Mathlib.Nat.{pow-suc}
use mapit.Base.{length-append}
use mapit.Messages.{Time}

abbrev pub Stamp : Type 0
Stamp = ℕ

unfoldable pub is_zero : Stamp → Bool
is_zero stamp = stamp == 0

unfoldable pub from_sec_and_nsec : ℕ → ℕ → Stamp
from_sec_and_nsec sec nsec = sec * 1000000000 + nsec

unfoldable pub from_msg : Time → Stamp
unfolding from_sec_and_nsec
from_msg stamp = from_sec_and_nsec stamp.sec stamp.nsec

-- `duration_cast<seconds>`, and the rest in nanoseconds.
unfoldable pub to_sec_and_nsec : Stamp → ℕ × ℕ
to_sec_and_nsec stamp = let sec = stamp / 1000000000 in (sec, stamp - sec * 1000000000)

unfoldable pub to_msg : Stamp → Time
unfolding to_sec_and_nsec
to_msg stamp = let (sec, nsec) = to_sec_and_nsec stamp in record { sec = sec; nsec = nsec }

-- `std::to_string`, on fuel that is more than the number of digits.
unfoldable pub decimal : ℕ → ℕ → Str
decimal zero n = []
decimal (suc fuel) n =
    let rest = decimal fuel (n / 10) ++ ((48 + n % 10) ∷ []) in
    if ltb n 10 then (48 + n) ∷ [] else rest

-- The loop that adds `zeros_to_add` zeroes; a negative count adds none.
abbrev pub zeroes : ℕ → Str
zeroes zero = []
zeroes (suc n) = 48 ∷ zeroes n

unfoldable pub fraction : ℕ → Str
unfolding decimal
fraction nsec = let nsec_str = decimal (suc nsec) nsec in zeroes (9 - length nsec_str) ++ nsec_str

unfoldable pub to_string : Stamp → Str
unfolding to_sec_and_nsec fraction decimal
to_string stamp =
    let (sec, nsec) = to_sec_and_nsec stamp in decimal (suc sec) sec ++ (46 ∷ fraction nsec)

to_msg_nsec : (stamp : Stamp) → (to_msg stamp).nsec < 1000000000
unfolding to_msg
to_msg_nsec stamp = omega arith

-- A stamp survives the way through a message, whose nanoseconds are always less than a second; and a
-- message survives the way through a stamp exactly if its own are. Both are to fit in the signed 64 bits of
-- `std::chrono::nanoseconds`.
pub time_round_trip :
    (stamp : Stamp) (m : Time)
    → stamp < 2 ^ 63
    → m.sec * 1000000000 + m.nsec < 2 ^ 63
    → (from_msg (to_msg stamp) ≡ stamp)
      × ((to_msg stamp).nsec < 1000000000)
      × ((m.nsec < 1000000000) ↔ (to_msg (from_msg m) ≡ m))
unfolding from_msg to_msg
time_round_trip stamp m fits fits_too =
    (omega arith, omega arith, (λ h. ground arith, λ e. rw (← e) (to_msg_nsec (from_msg m))))

length-zeroes : (n : ℕ) → length (zeroes n) ≡ n
length-zeroes zero = refl
length-zeroes (suc n) = ap suc (length-zeroes n)

length-decimal : (fuel n k : ℕ) → n < 10 ^ suc k → length (decimal fuel n) ≤ suc k
unfolding decimal
length-decimal zero n k h = omega arith
length-decimal (suc fuel) n zero h = ground arith
length-decimal (suc fuel) n (suc k) h = ground (
  arith,
  pow-suc 10 (suc k),
  length-append (decimal fuel (n / 10)) ((48 + n % 10) ∷ []),
  length-decimal fuel (n / 10) k,
)

-- What follows the point in a printed stamp has exactly nine digits, so that printed stamps line up
-- and compare as numbers.
pub fraction_nine : (stamp : Stamp) → length (fraction (to_sec_and_nsec stamp).1) ≡ 9
unfolding fraction to_sec_and_nsec
fraction_nine stamp =
    let n = (to_sec_and_nsec stamp).1 in
    length-append (zeroes (9 - length (decimal (suc n) n))) (decimal (suc n) n)
    ∙ rw (length-zeroes (9 - length (decimal (suc n) n)))
        (omega (arith, length-decimal (suc n) n 8 (omega arith)))
