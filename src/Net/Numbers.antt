-- ===== src/Net/Numbers.antt =====
-- Decimal numbers: what is printed is read back, and texts without a separator are not split by it.
use Prim.Native.Char.{Char, code}
use Prim.Native.String
use text.Mathlib.TextLemmas.{nil-append, cons-append, append-nil, append_assoc}
use udp_director.Prelude.{
  ℕ, zero, suc, ◌+◌, ◌*◌, ◌/◌, ◌%◌, ◌<◌, ◌≡◌, refl, inl, inr, String, false, some, [], ◌∷◌, arith,
  ltb, nat_beq, Bool-cases,
}
use udp_director.Text.{split_from, is_ascii_digit, digits_from, digits}
use udp_director.Net.Address.{digit, show_from}

-- No character of the text has this code.
abbrev pub Without : ℕ → String → Type 0
Without sep String.[] = Unit
Without sep (String.◌∷◌ c s) = (nat_beq (code c) sep ≡ false) × Without sep s

pub split_from-whole :
    (sep : ℕ) (part s : String) → Without sep s → split_from sep part s ≡ String.◌++◌ part s ∷ []
unfolding split_from
split_from-whole sep part String.[] h = rw (append-nil part) refl
split_from-whole sep part (String.◌∷◌ c s) (ne, h) =
    rw
      (
        ne,
        split_from-whole sep (String.◌++◌ part (String.◌∷◌ c String.[])) s h,
        append_assoc part (String.◌∷◌ c String.[]) s,
        cons-append c String.[] s,
        nil-append s,
      )
      refl

pub split_from-at :
    (sep : ℕ) (mark : Char) (part s rest : String)
    → code mark ≡ sep
    → Without sep s
    → split_from sep part (String.◌++◌ s (String.◌∷◌ mark rest))
      ≡ String.◌++◌ part s ∷ split_from sep String.[] rest
unfolding split_from
split_from-at sep mark part String.[] rest is h =
    rw (nil-append (String.◌∷◌ mark rest), append-nil part) (ground (arith, is))
split_from-at sep mark part (String.◌∷◌ c s) rest is (ne, h) =
    rw
      (
        cons-append c s (String.◌∷◌ mark rest),
        ne,
        split_from-at sep mark (String.◌++◌ part (String.◌∷◌ c String.[])) s rest is h,
        append_assoc part (String.◌∷◌ c String.[]) s,
        cons-append c String.[] s,
        nil-append s,
      )
      refl

pub digit-code : (k : ℕ) → k < 10 → code (digit k) ≡ b'0' + k
digit-code zero h = refl
digit-code (suc zero) h = refl
digit-code (suc (suc zero)) h = refl
digit-code (suc (suc (suc zero))) h = refl
digit-code (suc (suc (suc (suc zero)))) h = refl
digit-code (suc (suc (suc (suc (suc zero))))) h = refl
digit-code (suc (suc (suc (suc (suc (suc zero)))))) h = refl
digit-code (suc (suc (suc (suc (suc (suc (suc zero))))))) h = refl
digit-code (suc (suc (suc (suc (suc (suc (suc (suc zero)))))))) h = refl
digit-code (suc (suc (suc (suc (suc (suc (suc (suc (suc zero))))))))) h = refl
digit-code (suc (suc (suc (suc (suc (suc (suc (suc (suc (suc k)))))))))) h =
    absurd (omega (arith, h))

digits_from-digit :
    (acc k : ℕ) (s : String)
    → k < 10
    → digits_from acc (String.◌∷◌ (digit k) s) ≡ digits_from (10 * acc + k) s
unfolding digits_from
digits_from-digit acc k s h = let is = digit-code k h in ground (arith, is, h)

-- The numbers of so many digits are below this.
abbrev pub power : ℕ → ℕ
power zero = 1
power (suc k) = 10 * power k

-- The digits in front of a text are read as the number that was printed.
digits_from-show_from :
    (fuel n : ℕ) (written : String)
    → n < power fuel
    → digits_from 0 (show_from fuel n written) ≡ digits_from n written
unfolding show_from
digits_from-show_from zero n written h = let is : n ≡ 0 = omega (arith, h) in rw is refl
digits_from-show_from (suc fuel) n written h = elim (Bool-cases (ltb n 10)) [
  | inl small ↦
      let is : 10 * 0 + n ≡ n = omega arith in
      rw (small, digits_from-digit 0 n written (ground (arith, small)), is) refl
  | inr large ↦
      let is : 10 * (n / 10) + n % 10 ≡ n = omega arith in
      rw
        (
          large,
          digits_from-show_from fuel (n / 10) (String.◌∷◌ (digit (n % 10)) written)
              (omega (arith, h)),
          digits_from-digit (n / 10) (n % 10) written (omega arith),
          is,
        )
        refl
]

digits-of_digits_from :
    (fuel n : ℕ) (c : Char) (written : String)
    → digits (show_from fuel n (String.◌∷◌ c written))
      ≡ digits_from 0 (show_from fuel n (String.◌∷◌ c written))
unfolding digits show_from
digits-of_digits_from zero n c written = refl
digits-of_digits_from (suc fuel) n c written = elim (Bool-cases (ltb n 10)) [
  | inl small ↦ rw small refl
  | inr large ↦
      rw large (digits-of_digits_from fuel (n / 10) (digit (n % 10)) (String.◌∷◌ c written))
]

-- A number that is printed with enough fuel is read back.
pub digits-show_from :
    (fuel n : ℕ) → n < power (suc fuel) → digits (show_from (suc fuel) n String.[]) ≡ some n
unfolding show_from digits digits_from
digits-show_from fuel n h = elim (Bool-cases (ltb n 10)) [
  | inl small ↦
      let is : 10 * 0 + n ≡ n = omega arith in
      rw (small, digits_from-digit 0 n String.[] (ground (arith, small)), is) refl
  | inr large ↦
      let is : 10 * (n / 10) + n % 10 ≡ n = omega arith in
      rw
        (
          large,
          digits-of_digits_from fuel (n / 10) (digit (n % 10)) String.[],
          digits_from-show_from fuel (n / 10) (String.◌∷◌ (digit (n % 10)) String.[])
              (omega (arith, h)),
          digits_from-digit (n / 10) (n % 10) String.[] (omega arith),
          is,
        )
        refl
]

-- Printed numbers have no character but digits.
pub show_from-Without :
    (sep fuel n : ℕ) (written : String)
    → is_ascii_digit sep ≡ false
    → Without sep written
    → Without sep (show_from fuel n written)
unfolding show_from
show_from-Without sep zero n written h w = w
show_from-Without sep (suc fuel) n written h w = elim (Bool-cases (ltb n 10)) [
  | inl small ↦
      let is = digit-code n (ground (arith, small)) in rw small (ground (arith, is, small, h), w)
  | inr large ↦
      let is = digit-code (n % 10) (omega arith) in
      rw large (
        show_from-Without sep fuel (n / 10) (String.◌∷◌ (digit (n % 10)) written) h
          (ground (arith, is, h), w))
]
