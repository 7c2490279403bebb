-- ===== src/Payments/TradeNo/Format.antt =====
-- The form of a merchant trade number.
use ai_chat_websocket.Prelude.{
  ℕ, zero, suc, ◌+◌, ◌-◌, ◌*◌, ◌/◌, ◌%◌, ◌≤◌, ◌<◌, ◌≡◌, refl, ap, ◌∙◌, Bool, true, ◌&&◌, Text, List,
  [], ◌∷◌, map, length, length-append, length-map, ltb, leb, nat_beq, nat_beq_iff, if◌then◌else◌,
  Bool-cases, inl, inr, arith,
}
use ai_chat_websocket.Payments.TradeNo.{
  chars, char_at, ts_loop, zeros, ljust, generate_merchant_trade_no,
}

length-ts_loop : (room n : ℕ) (s : Text) → length (ts_loop room n s) ≤ room + length s
unfolding ts_loop
length-ts_loop zero n s = omega arith
length-ts_loop (suc room) n s =
    ground (arith, length-ts_loop room (n / 36) (char_at (n % 36) chars ∷ s))

length-zeros : (k : ℕ) → length (zeros k) ≡ k
unfolding zeros
length-zeros zero = refl
length-zeros (suc k) = ap suc (length-zeros k)

length-ljust : (width : ℕ) (s : Text) → length s ≤ width → length (ljust width s) ≡ width
unfolding ljust
length-ljust width s h =
    omega (arith, length-append s (zeros (width - length s)), length-zeros (width - length s))

-- With twelve random characters a trade number has the 20 that ECPay and the column allow.
length-generate_merchant_trade_no :
    (now : ℕ) (choices : List ℕ)
    → length choices ≡ 12
    → length (generate_merchant_trade_no now choices) ≡ 20
unfolding generate_merchant_trade_no
length-generate_merchant_trade_no now choices h = omega (
  arith,
  length-append (ljust 8 (ts_loop 8 now [])) (map (λ i. char_at i chars) choices),
  length-map (λ i. char_at i chars) choices,
  length-ljust 8 (ts_loop 8 now []) (length-ts_loop 8 now []),
)

-- 36 to the power of `k`
abbrev pub pow36 : ℕ → ℕ
pow36 zero = 1
pow36 (suc k) = 36 * pow36 k

-- the place of a character in `chars`
abbrev pub digit_value : ℕ → ℕ
digit_value c = if leb b'A' c && leb c b'Z' then c - b'A' else 26 + (c - b'0')

-- The number that digits stand for, the most significant first.
pub value_from : ℕ → Text → ℕ
value_from acc [] = acc
value_from acc (c ∷ s) = value_from (acc * 36 + digit_value c) s

-- the first `count` digits all read back
digits_ok : ℕ → Bool
digits_ok zero = true
digits_ok (suc d) = digits_ok d && nat_beq (digit_value (char_at d chars)) d

digits_ok_lem :
    (count d : ℕ)
    → d < count
    → digits_ok count ≡ true
    → nat_beq (digit_value (char_at d chars)) d ≡ true
unfolding digits_ok
digits_ok_lem zero d under ok' = absurd (omega arith)
digits_ok_lem (suc last) d under ok' = ground (arith, digits_ok_lem last d)

digit_table : digits_ok 36 ≡ true
unfolding digits_ok char_at
digit_table = refl

digit_value-char_at : (d : ℕ) → d < 36 → digit_value (char_at d chars) ≡ d
digit_value-char_at d h = (nat_beq_iff _ d).0 (digits_ok_lem 36 d h digit_table)

digit_step : (m : ℕ) (t : Text) → value_from (m / 36) (char_at (m % 36) chars ∷ t) ≡ value_from m t
unfolding value_from
digit_step m t =
    let e : m / 36 * 36 + digit_value (char_at (m % 36) chars) ≡ m =
      omega (arith, digit_value-char_at (m % 36) (omega arith)) in
    ap (λ a. value_from a t) e

value_from-ts_loop :
    (room n : ℕ) (s : Text) → n < pow36 room → value_from 0 (ts_loop room n s) ≡ value_from n s
unfolding ts_loop
value_from-ts_loop zero n s h = let e : n ≡ 0 = omega arith in rw e
value_from-ts_loop (suc room) n s h = elim (Bool-cases (ltb 0 n)) [
  | inl more ↦
      rw more (
        value_from-ts_loop room (n / 36) (char_at (n % 36) chars ∷ s) (omega arith)
        ∙ digit_step n s)
  | inr done ↦ let e : n ≡ 0 = ground arith in rw (done, e)
]

-- The characters before the padding are the time in base 36, for every time below 36 ^ 8: they
-- determine the second at which the number was made.
value-ts_loop : (now : ℕ) → now < pow36 8 → value_from 0 (ts_loop 8 now []) ≡ now
unfolding value_from
value-ts_loop now h = value_from-ts_loop 8 now [] h
