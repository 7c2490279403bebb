-- ===== src/Payments/TradeNo.antt =====
-- `generate_merchant_trade_no` of backend/apps/payments/services.py. The clock and the random choices
-- are arguments.
pub mod Format
use ai_chat_websocket.Prelude.{
  ℕ, zero, suc, ◌-◌, ◌/◌, ◌%◌, Text, codes, List, [], ◌∷◌, ◌++◌, map, length, ltb, if◌then◌else◌,
}

-- `string.ascii_uppercase + string.digits`
abbrev pub chars : Text
chars = codes "ABCDEFGHIJKLMNOPQRSTUVWXYZ0123456789"

-- `chars[i]`, for an index in range
unfoldable pub char_at : ℕ → Text → ℕ
char_at i [] = 0
char_at zero (c ∷ s) = c
char_at (suc i) (c ∷ s) = char_at i s

-- `while n > 0 and len(ts_part) < 8`, on the rounds that the length leaves
unfoldable pub ts_loop : ℕ → ℕ → Text → Text
unfolding char_at
ts_loop zero n ts_part = ts_part
ts_loop (suc room) n ts_part =
    let rest = ts_loop room (n / 36) (char_at (n % 36) chars ∷ ts_part) in
    if ltb 0 n then rest else ts_part

-- `s.ljust(width, "0")`
unfoldable pub zeros : ℕ → Text
zeros zero = []
zeros (suc k) = b'0' ∷ zeros k

unfoldable pub ljust : ℕ → Text → Text
unfolding zeros
ljust width s = s ++ zeros (width - length s)

-- `choices` are the twelve answers of `secrets.choice`, as indices into `chars`.
unfoldable pub generate_merchant_trade_no : ℕ → List ℕ → Text
unfolding ts_loop ljust char_at
generate_merchant_trade_no now choices =
    ljust 8 (ts_loop 8 now []) ++ map (λ i. char_at i chars) choices
