-- ===== src/Config/Numbers.antt =====
-- A number that is printed and read again.
use a2a_agent_layer.Common.{
  ℕ, zero, suc, ◌+◌, ◌/◌, ◌%◌, ◌<◌, ltb, ◌==◌, ◌≡◌, ◌≢◌, refl, ap, ◌∙◌, inl, inr, true, false,
  Bool-cases, all, [], ◌∷◌, is_digit, Text, arith,
}
use a2a_agent_layer.Common.Decimal.{show_ℕ, digits}
use a2a_agent_layer.Common.Trim.{is_space, drop_spaces}
use a2a_agent_layer.Validation.{span}
use a2a_agent_layer.Auth.RefreshToken.{parse_int}
use a2a_agent_layer.Config.{plus, parse_number}

parse_int-digits :
    (fuel n : ℕ) (acc : Text) → n < fuel → parse_int 0 (digits fuel n acc) ≡ parse_int n acc
unfolding digits parse_int
parse_int-digits zero n acc h = absurd (omega (arith, h))
parse_int-digits (suc fuel) n acc h = elim (Bool-cases (ltb n 10)) [
  | inl e ↦ rw e (ap (λ k. parse_int k acc) (omega arith))
  | inr e ↦
      let small : n / 10 < fuel = ground arith in
      rw e (
        parse_int-digits fuel (n / 10) ((n % 10 + b'0') ∷ acc) small
        ∙ ap (λ k. parse_int k acc) (ground arith))
]

all-digits :
    (fuel n : ℕ) (acc : Text)
    → n < fuel
    → all is_digit acc ≡ true
    → all is_digit (digits fuel n acc) ≡ true
unfolding digits
all-digits zero n acc h a = absurd (omega (arith, h))
all-digits (suc fuel) n acc h a = elim (Bool-cases (ltb n 10)) [
  | inl e ↦ rw e (ground arith)
  | inr e ↦
      let small : n / 10 < fuel = ground arith in
      rw e (all-digits fuel (n / 10) ((n % 10 + b'0') ∷ acc) small (ground arith))
]

span-all : (s : Text) → all is_digit s ≡ true → span is_digit s ≡ (s, [])
unfolding span
span-all [] a = refl
span-all (c ∷ s) a =
    let first : is_digit c ≡ true = ground arith in
    let others : all is_digit s ≡ true = ground arith in rw (first, span-all s others) refl

-- A text that starts with a digit is read as the number of its digits.
parse_number-digits :
    (c : ℕ) (s : Text)
    → all is_digit (c ∷ s) ≡ true
    → parse_number (c ∷ s) ≡ plus (parse_int 0 (c ∷ s))
unfolding parse_number drop_spaces
parse_number-digits c s a =
    let bare : is_space c ≡ false = ground arith in
    let no_minus : (c == b'-') ≡ false = ground arith in
    let no_plus : (c == b'+') ≡ false = ground arith in
    rw bare (rw (no_minus, no_plus) (rw (span-all (c ∷ s) a) refl))

parse_number-all :
    (s : Text) → s ≢ [] → all is_digit s ≡ true → parse_number s ≡ plus (parse_int 0 s)
parse_number-all [] n a = absurd (n refl)
parse_number-all (c ∷ s) n a = parse_number-digits c s a

digits-nonempty : (fuel n : ℕ) (acc : Text) → n < fuel → digits fuel n acc ≢ []
unfolding digits
digits-nonempty zero n acc h = absurd (omega (arith, h))
digits-nonempty (suc fuel) n acc h = elim (Bool-cases (ltb n 10)) [
  | inl e ↦ rw e (λ z. cc)
  | inr e ↦
      let small : n / 10 < fuel = ground arith in
      rw e (digits-nonempty fuel (n / 10) ((n % 10 + b'0') ∷ acc) small)
]

pub all-show_ℕ : (n : ℕ) → all is_digit (show_ℕ n) ≡ true
unfolding show_ℕ
all-show_ℕ n = all-digits (suc n) n [] (omega arith) refl

pub show_ℕ_nonempty : (n : ℕ) → show_ℕ n ≢ []
unfolding show_ℕ
show_ℕ_nonempty n = digits-nonempty (suc n) n [] (omega arith)

read_back : (n : ℕ) → parse_int 0 (show_ℕ n) ≡ n
unfolding show_ℕ parse_int
read_back n = parse_int-digits (suc n) n [] (omega arith)

pub parse_number-show_ℕ : (n : ℕ) → parse_number (show_ℕ n) ≡ plus n
parse_number-show_ℕ n =
    parse_number-all (show_ℕ n) (show_ℕ_nonempty n) (all-show_ℕ n) ∙ ap plus (read_back n)
