-- ===== src/Text/Decimal.antt =====
-- `to_string` of an unsigned number.
use vaultwarden_eso_provider.Prelude.{
  ℕ, zero, suc, ◌+◌, ◌-◌, ◌*◌, ◌/◌, ◌%◌, ◌<◌, ◌≤◌, ◌≡◌, [], ◌∷◌, ltb, if◌then◌else◌, arith, ap,
  Bool-cases, inl, inr,
}
use vaultwarden_eso_provider.Text.{Text}

-- The digits of a number in front of a text, on fuel; a number more is enough of it.
unfoldable pub digits : ℕ → ℕ → Text → Text
digits zero n text = text
digits (suc fuel) n text =
    let more = digits fuel (n / 10) ((b'0' + n % 10) ∷ text) in
    if ltb n 10 then (b'0' + n) ∷ text else more

unfoldable pub to_string : ℕ → Text
unfolding digits
to_string n = digits (n + 1) n []

-- The number that digits write behind a number.
unfoldable pub number_from : ℕ → Text → ℕ
number_from n [] = n
number_from n (c ∷ s) = number_from (n * 10 + (c - b'0')) s

number_from-digits :
    (fuel n : ℕ) (text : Text) → n < fuel → number_from 0 (digits fuel n text) ≡ number_from n text
unfolding digits number_from
number_from-digits zero n text h = omega arith
number_from-digits (suc fuel) n text h = elim (Bool-cases (ltb n 10)) [
  | inl last ↦ rw last (ap (λ v. number_from v text) (omega arith))
  | inr more ↦
      let big : 10 ≤ n = ground arith in
      rw (more, number_from-digits fuel (n / 10) ((b'0' + n % 10) ∷ text) (omega arith))
        (ap (λ v. number_from v text) (omega arith))
]

-- A number is read back from its digits, so the fuel is enough.
pub number_from-to_string : (n : ℕ) → number_from 0 (to_string n) ≡ n
unfolding to_string number_from
number_from-to_string n = number_from-digits (n + 1) n [] (omega arith)
