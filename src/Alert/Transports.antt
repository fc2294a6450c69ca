-- ===== src/Alert/Transports.antt =====
-- internal/alert/telegram.go and internal/alert/webhook.go: the transports that post an alert.
use txmill.Base.{
  ℕ, ◌<◌, ◌≡◌, ◌↔◌, sym, ap, ◌∙◌, List, [], ◌∷◌, ◌++◌, Option, none, some, Bytes, bytes, Result, ok,
  err, Error, new, arith, leb, if◌then◌else◌, to_upper, Option-cases, Result-cases, inl, inr,
}
use txmill.Alert.{Alert, Level, Notifier}

pub record HttpRequest : Type 0 where
  pub url : Bytes
  pub content_type : Bytes
  pub body : Bytes

-- The fields of the JSON document of an alert.
pub record AlertBody : Type 0 where
  pub key : Bytes
  pub level : Bytes
  pub title : Bytes
  pub message : Bytes
  pub tags : List (Bytes × Bytes)
  pub ts : ℕ

-- `net/http`, `net/url` and `encoding/json`, as they answer during one call: whether a request to a URL can
-- be made, the status code of the reply to a request, the order in which a map is read, the time.
pub record Http : Type 0 where
  pub new_request : Bytes → Option Error
  pub send : HttpRequest → Result ℕ
  pub encode : List (Bytes × Bytes) → Bytes
  pub marshal : AlertBody → Result Bytes
  pub range : List (Bytes × Bytes) → List (Bytes × Bytes)
  pub unix_now : ℕ

pub record Telegram : Type 0 where
  pub api_base : Bytes
  pub bot_token : Bytes
  pub chat_id : Bytes

-- `NewTelegram`
abbrev pub new_telegram : Bytes → Bytes → Telegram
new_telegram bot_token chat_id = record {
  api_base = bytes "https://api.telegram.org";
  bot_token = bot_token;
  chat_id = chat_id;
}

abbrev pub set_api_base : Telegram → Bytes → Telegram
set_api_base t base = record t { api_base = base }

-- `Webhook` and `NewWebhook`
pub record Webhook : Type 0 where
  pub url : Bytes

abbrev pub new_webhook : Bytes → Webhook
new_webhook url = record { url = url }

abbrev pub level_text : Level → Bytes
level_text Level.info = bytes "info"
level_text Level.warn = bytes "warn"
level_text Level.error = bytes "error"

abbrev pub tag_lines : List (Bytes × Bytes) → Bytes
tag_lines [] = []
tag_lines ((k, v) ∷ rest) = 10 ∷ (k ++ (bytes ": " ++ (v ++ tag_lines rest)))

-- The text of `Telegram.Notify`.
unfoldable pub telegram_text : Http → Alert → Bytes
telegram_text h a =
    bytes "["
    ++ (to_upper (level_text a.level)
        ++ (bytes "] " ++ (a.title ++ (10 ∷ (a.message ++ tag_lines (h.range a.tags))))))

abbrev pub telegram_request : Http → Telegram → Alert → HttpRequest
unfolding telegram_text
telegram_request h t a = record {
  url = t.api_base ++ (bytes "/bot" ++ (t.bot_token ++ bytes "/sendMessage"));
  content_type = bytes "application/x-www-form-urlencoded";
  body = h.encode ((bytes "chat_id", t.chat_id) ∷ (bytes "text", telegram_text h a) ∷ []);
}

abbrev refused_at : Error → ℕ → Option Error
refused_at e code = if leb 400 code then some e else none

abbrev replied : Error → Result ℕ → Option Error
replied e (err x) = some x
replied e (ok code) = refused_at e code

-- What is posted, if the request can be made, beside the error.
abbrev post : Http → Error → HttpRequest → Option Error × List HttpRequest
post h e r = elim (h.new_request r.url) [
  | some x ↦ (some x, [])
  | none ↦ (replied e (h.send r), r ∷ [])
]

-- `Telegram.Notify`
unfoldable pub notify_telegram : Http → Telegram → Alert → Option Error × List HttpRequest
notify_telegram h t a = post h (new "telegram: HTTP") (telegram_request h t a)

abbrev pub alert_body : Http → Alert → AlertBody
alert_body h a = record {
  key = a.key;
  level = level_text a.level;
  title = a.title;
  message = a.message;
  tags = a.tags;
  ts = h.unix_now;
}

abbrev pub webhook_request : Webhook → Bytes → HttpRequest
webhook_request w body = record {
  url = w.url;
  content_type = bytes "application/json";
  body = body;
}

abbrev marshalled : Http → Webhook → Result Bytes → Option Error × List HttpRequest
marshalled h w (err e) = (some e, [])
marshalled h w (ok body) = post h (new "alert webhook: HTTP") (webhook_request w body)

-- `Webhook.Notify`
unfoldable pub notify_webhook : Http → Webhook → Alert → Option Error × List HttpRequest
notify_webhook h w a = marshalled h w (h.marshal (alert_body h a))

abbrev pub by_telegram : Http → Telegram → Notifier
by_telegram h t a = (notify_telegram h t a).0

abbrev pub by_webhook : Http → Webhook → Notifier
by_webhook h w a = (notify_webhook h w a).0

-- A request that can be made and is answered below 400.
abbrev pub Delivers : Http → HttpRequest → Type 0
Delivers h r = (h.new_request r.url ≡ none) × ((code : ℕ) × (h.send r ≡ ok code) × (code < 400))

module _ (h : Http) where
  replied_lem :
      (e : Error) (r : HttpRequest)
      → (replied e (h.send r) ≡ none) ↔ ((code : ℕ) × (h.send r ≡ ok code) × (code < 400))
  replied_lem e r = elim (Result-cases (h.send r)) [
    | inl (x, failed) ↦
        (λ same. absurd (ground arith), λ (code, sent, small). absurd (ground arith))
    | inr (code, sent) ↦ (λ same. (code, sent, ground arith), λ (code', sent', small). ground arith)
  ]

  -- A Telegram alert is reported as delivered exactly if its one request can be made and is answered below
  -- 400; and nothing else is posted.
  pub notify_telegram-Delivers :
      (t : Telegram) (a : Alert)
      → (((notify_telegram h t a).0 ≡ none) ↔ Delivers h (telegram_request h t a))
        × ((h.new_request (telegram_request h t a).url ≡ none)
            → (notify_telegram h t a).1 ≡ telegram_request h t a ∷ [])
  unfolding notify_telegram
  notify_telegram-Delivers t a = elim (Option-cases (h.new_request (telegram_request h t a).url)) [
    | inr (x, failed) ↦ (
      (λ same. absurd (ground arith), λ (made, rest). absurd (ground arith)),
      λ made. absurd (ground arith),
    )
    | inl made ↦
        let (there, back) = replied_lem (new "telegram: HTTP") (telegram_request h t a) in
        (
          (λ same. (made, there (ground arith)), λ (m, rest). ground (arith, back rest)),
          λ m. ground arith,
        )
  ]

  -- The document of an alert can be written, and the request with it is answered below 400.
  abbrev pub DeliversJson : Webhook → Alert → Type 0
  DeliversJson w a =
      (body : Bytes) × (h.marshal (alert_body h a) ≡ ok body) × Delivers h (webhook_request w body)

  pub notify_webhook-Delivers :
      (w : Webhook) (a : Alert) → ((notify_webhook h w a).0 ≡ none) ↔ DeliversJson w a
  unfolding notify_webhook
  notify_webhook-Delivers w a = elim (Result-cases (h.marshal (alert_body h a))) [
    | inl (e, failed) ↦ (λ same. absurd (ground arith), λ (b, m, rest). absurd (ground arith))
    | inr (body, m) ↦ elim (Option-cases (h.new_request w.url)) [
      | inr (x, failed) ↦
          (λ same. absurd (ground arith), λ (b, m', (made, rest)). absurd (ground arith))
      | inl made ↦
          let (there, back) = replied_lem (new "alert webhook: HTTP") (webhook_request w body) in
          (
            λ same. (body, m, (made, there (ground arith))),
            λ (b, m', (made', (code, sent, small))).
                let own : b ≡ body = ground arith in
                let answered : h.send (webhook_request w body) ≡ ok code =
                  ap (λ z. h.send (webhook_request w z)) (sym own) ∙ sent in
                ground (arith, back (code, answered, small)),
          )
    ]
  ]
