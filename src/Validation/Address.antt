-- ===== src/Validation/Address.antt =====
-- Ethereum addresses: the pipe gives one spelling to each address.
use a2a_agent_layer.Common.{
  ℕ, true, false, ◌≡◌, ◌≢◌, refl, sym, Option, none, some, [], ◌∷◌, length, all, Bool-cases,
  Option-cases, ◌∙◌, ap, inl, inr, Text, codes, to_lower, lower_case, ok, arith,
}
use a2a_agent_layer.Validation.{is_hex, strip, hex_of_length, is_eth_address, transform_address}

to_lower_idem : (c : ℕ) → to_lower (to_lower c) ≡ to_lower c
to_lower_idem c = ground arith

pub lower_case_idem : (s : Text) → lower_case (lower_case s) ≡ lower_case s
unfolding lower_case
lower_case_idem [] = refl
lower_case_idem (c ∷ s) = cc (to_lower_idem c, lower_case_idem s)

length-lower_case : (s : Text) → length (lower_case s) ≡ length s
unfolding lower_case
length-lower_case [] = refl
length-lower_case (c ∷ s) = omega (arith, length-lower_case s)

hex-lower_case : (s : Text) → all is_hex s ≡ true → all is_hex (lower_case s) ≡ true
unfolding lower_case
hex-lower_case [] h = refl
hex-lower_case (c ∷ s) h = ground (arith, hex-lower_case s)

strip-lower_case :
    (s r : Text)
    → strip (codes "0x") s ≡ some r
    → strip (codes "0x") (lower_case s) ≡ some (lower_case r)
unfolding strip lower_case
strip-lower_case [] r e = cc
strip-lower_case (c ∷ []) r e = absurd (ground arith)
strip-lower_case (c ∷ d ∷ s) r e = ground arith

address_lem : (v : Text) → is_eth_address v ≡ hex_of_length 40 (strip (codes "0x") v)
unfolding is_eth_address
address_lem v = refl

address-lower_case : (s : Text) → is_eth_address s ≡ true → is_eth_address (lower_case s) ≡ true
address-lower_case s h = elim (Option-cases (strip (codes "0x") s)) [
  | inl missing ↦ absurd (cc (address_of s none missing))
  | inr (r, found) ↦
      address_of (lower_case s) _ (strip-lower_case s r found)
      ∙ ground (arith, address_of s _ found, length-lower_case r, hex-lower_case r)
]
  where
    address_of :
        (v : Text) (o : Option Text)
        → strip (codes "0x") v ≡ o
        → is_eth_address v ≡ hex_of_length 40 o
    address_of v o e = address_lem v ∙ ap (hex_of_length 40) e

transform_address_ok :
    (v : Text) → is_eth_address v ≡ true → transform_address v ≡ ok (lower_case v)
unfolding transform_address
transform_address_ok v h = rw (h, transform_address)

transform_address_throws :
    (v address : Text) → is_eth_address v ≡ false → transform_address v ≢ ok address
unfolding transform_address
transform_address_throws v address h e = cc (rw (h, transform_address) at e)

-- What the pipe returns is again an address, in lower case, and the pipe leaves it as it is.
pub transform_address_idem :
    (value address : Text)
    → transform_address value ≡ ok address
    → (is_eth_address address ≡ true)
      × (lower_case address ≡ address)
      × (transform_address address ≡ ok address)
transform_address_idem value address e = elim (Bool-cases (is_eth_address value)) [
  | inl h ↦
      let low : lower_case value ≡ address = cc (sym (transform_address_ok value h) ∙ e) in
      let again : is_eth_address address ≡ true = rw low at (address-lower_case value h) in
      let fixed : lower_case address ≡ address = rw low at (lower_case_idem value) in
      (again, fixed, transform_address_ok address again ∙ ap ok fixed)
  | inr n ↦ absurd (transform_address_throws value address n e)
]
