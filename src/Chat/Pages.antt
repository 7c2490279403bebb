-- ===== src/Chat/Pages.antt =====
-- The pagination that `get_user_conversations` and `get_conversation_messages` of
-- backend/apps/chat/services.py and `get_user_orders` of backend/apps/payments/services.py share.
pub mod Walk
use ai_chat_websocket.Prelude.{
  ℕ, ◌+◌, ◌-◌, ◌*◌, ◌==◌, nat_eq, ℤ, pos, negsuc, Bool, ◌&&◌, not, List, length, take, drop, ltb,
  if◌then◌else◌,
}

pub record Page (A : Type 0) : Type 0 where
  pub items : List A
  pub total : ℤ
  pub has_more : Bool

-- `rows` is the filtered and ordered query; a slice `qs[a:b]` of it skips `a` rows and takes the next
-- `b - a`. Page numbers begin at 1.
unfoldable pub paginate : {A : Type 0} → ℕ → ℕ → List A → Page A
paginate page page_size rows =
    let offset = (page - 1) * page_size in
    let fetched = take (page_size + 1) (drop offset rows) in
    let has_more = ltb page_size (length fetched) in
    let items = take page_size fetched in
    record {
      items = items;
      total = if page == 1 && not has_more then pos (length items) else negsuc 0;
      has_more = has_more;
    }
