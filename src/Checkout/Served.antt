-- ===== src/Checkout/Served.antt =====
-- internal/checkout/handlers.go and its template status_region.html: the status region that the server
-- sends for an order. `region_of` is the region as the page sees it: the template prints the fields into
-- data attributes, and the element that shows the countdown is there only while there is one.
pub mod Laws
use ucollection.Base.{
  ℕ, ◌-◌, Text, codes, ◌++◌, Bool, true, false, Option, none, some, if◌then◌else◌,
}
use ucollection.Base.Decimal.{to_string}
use ucollection.Orders.{
  Status, pending, confirming, completed, overpaid, confirmation_stalled, expired, status_text,
  Order,
}
use ucollection.Checkout.{Region}

pub record StatusView : Type 0 where
  pub status : Text
  pub label : Text
  pub detail : Text
  pub remaining_seconds : ℕ
  pub show_countdown : Bool
  pub is_terminal : Bool
  pub status_url : Text

-- The seconds from now to a time, and 0 after it.
abbrev pub remaining_seconds : ℕ → ℕ → ℕ
remaining_seconds now t = t - now

abbrev pub view_of : Status → (now expires_at : ℕ) → StatusView → StatusView
view_of pending now expires_at v = record v {
  label = codes "等待付款";
  detail = codes "請於剩餘時間內，將指定金額的 USDT 轉入下方收款地址。";
  show_countdown = true;
  remaining_seconds = remaining_seconds now expires_at;
}
view_of confirming now expires_at v = record v {
  label = codes "確認中";
  detail = codes "已偵測到款項，正在等待區塊鏈確認，請耐心等候，勿重複付款。";
}
view_of completed now expires_at v = record v {
  label = codes "付款完成";
  detail = codes "已收到並確認款項，付款完成，感謝您。";
  is_terminal = true;
}
view_of overpaid now expires_at v = record v {
  label = codes "已收到超額款項";
  detail = codes "已收到超過應付金額的款項，付款已完成；如需處理差額，請聯繫商戶。";
  is_terminal = true;
}
view_of confirmation_stalled now expires_at v = record v {
  label = codes "款項確認逾時";
  detail = codes "已偵測到款項，但在確認時限內未完成鏈上確認，請聯繫商戶協助查證。";
  is_terminal = true;
}
view_of expired now expires_at v = record v {
  label = codes "訂單已逾期";
  detail = codes "有效期限內未收到足額款項，此訂單已失效，請聯繫商戶重新建立訂單。";
  is_terminal = true;
}

abbrev pub blank_view : Status → (token : Text) → StatusView
blank_view status token = record {
  status = status_text status;
  label = codes "";
  detail = codes "";
  remaining_seconds = 0;
  show_countdown = false;
  is_terminal = false;
  status_url = codes "/checkout/" ++ token ++ codes "/status";
}

-- `buildStatusView`
abbrev pub build_status_view : ℕ → Order → Text → StatusView
build_status_view now o token = view_of o.status now o.expires_at (blank_view o.status token)

abbrev pub region_of : StatusView → Region
region_of v = record {
  remaining = to_string v.remaining_seconds;
  countdown = v.show_countdown;
  terminal = v.is_terminal;
  status_url = v.status_url;
  display = if v.show_countdown then some (to_string v.remaining_seconds ++ codes " 秒") else none;
}
