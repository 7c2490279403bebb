-- ===== src/Payments/ItemName.antt =====
-- `_sanitize_item_name` of backend/apps/payments/ecpay.py: the keywords that ECPay's firewall blocks.
pub mod Words
use ai_chat_websocket.Prelude.{
  ℕ, zero, suc, ◌-◌, ◌+◌, Text, codes, Bool, true, false, ◌&&◌, ◌||◌, not, Option, none, some, List,
  [], ◌∷◌, length, take, leb, ◌==◌, nat_eq, if◌then◌else◌,
}
use ai_chat_websocket.Chat.Protocol.{strip}

abbrev pub waf_keywords : List Text
waf_keywords =
    codes "echo"
    ∷ codes "python"
    ∷ codes "cmd"
    ∷ codes "wget"
    ∷ codes "curl"
    ∷ codes "ping"
    ∷ codes "net"
    ∷ codes "telnet"
    ∷ codes "bash"
    ∷ codes "sh"
    ∷ codes "powershell"
    ∷ codes "exec"
    ∷ codes "eval"
    ∷ []

-- The letter of a keyword that a character matches under re.IGNORECASE: the capital letters, and the
-- four letters outside ASCII that `re` takes for i, i, s and k.
abbrev pub fold_case : ℕ → ℕ
fold_case c =
    if leb b'A' c && leb c b'Z'
    then c + 32
    else (if c == 304 || c == 305
        then b'i'
        else (if c == 383 then b's' else (if c == 8490 then b'k' else c)))

-- `is_other_word` is the class `\w` outside ASCII, beside those four.
module _ (is_other_word : ℕ → Bool) where
  abbrev pub is_word : ℕ → Bool
  is_word c =
      (leb b'a' c && leb c b'z')
      || (leb b'A' c && leb c b'Z')
      || (leb b'0' c && leb c b'9')
      || c == b'_'
      || c == 304
      || c == 305
      || c == 383
      || c == 8490
      || (leb 128 c && is_other_word c)

  -- `\b` after a letter
  abbrev pub at_end : Text → Bool
  at_end [] = true
  at_end (c ∷ s) = not (is_word c)

  -- the text begins with the keyword, as a whole word
  unfoldable pub begins_with : Text → Text → Bool
  begins_with [] s = at_end s
  begins_with (k ∷ keyword) [] = false
  begins_with (k ∷ keyword) (c ∷ s) = fold_case c == k && begins_with keyword s

  -- the length of the first alternative that matches here
  unfoldable pub first_match : List Text → Text → Option ℕ
  unfolding begins_with
  first_match [] s = none
  first_match (keyword ∷ keywords) s =
      if begins_with keyword s then some (length keyword) else first_match keywords s

  -- `\b(...)\b` here, after a character that is one of a word or not
  unfoldable pub match_here : Bool → Text → Option ℕ
  unfolding first_match
  match_here true s = none
  match_here false s = first_match waf_keywords s

  -- `_WAF_KEYWORDS.sub("", name)`: `skip` characters of a match are left, `after_word` says whether the
  -- character before is one of a word
  unfoldable pub remove_keywords : Bool → ℕ → Text → Text
  unfolding match_here
  remove_keywords after_word skip [] = []
  remove_keywords after_word (suc skip) (c ∷ s) = remove_keywords true skip s
  remove_keywords after_word zero (c ∷ s) = elim (match_here after_word (c ∷ s)) [
    | none ↦ c ∷ remove_keywords (is_word c) zero s
    | some n ↦ remove_keywords true (n - 1) s
  ]

  abbrev pub or_topup : Text → Text
  or_topup [] = codes "credit-topup"
  or_topup (c ∷ s) = take 200 (c ∷ s)

  unfoldable pub sanitize_item_name : Text → Text
  unfolding remove_keywords
  sanitize_item_name name = or_topup (strip (remove_keywords false zero name))
