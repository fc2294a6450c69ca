-- ===== src/Start/AlertTest.antt =====
-- cmd/alert-test/main.go: the tool that sends a test alert.
use txmill.Base.{
  ℕ, ◌≡◌, ◌↔◌, refl, sym, ◌∙◌, inl, inr, Bool, true, false, ◌&&◌, not, List, [], ◌∷◌, ◌++◌, Option,
  none, some, Bytes, bytes, Error, arith, is_empty, Option-cases,
}
use txmill.Config.{Config}
use txmill.Alert.{Alert, Level, Notifier, notify_all}
use txmill.Alert.Transports.{
  Http, Delivers, DeliversJson, by_webhook, new_webhook, by_telegram, new_telegram,
  telegram_request, notify_webhook-Delivers, notify_telegram-Delivers,
}
use txmill.Start.{webhook_of, telegram_of}

-- `now` is the time, formatted.
abbrev pub test_alert : Bytes → Alert
test_alert now = record {
  key = bytes "alert_test";
  level = Level.info;
  title = bytes "txmill alert test";
  message = bytes "Test alert dispatched at " ++ now;
  tags = (bytes "source", bytes "alert-test") ∷ [];
}

abbrev exit_code : List Error → ℕ
exit_code [] = 0
exit_code (e ∷ rest) = 1

abbrev dispatched : Bytes → List Notifier → ℕ
dispatched now [] = 2
dispatched now (t ∷ ts) = exit_code (notify_all (t ∷ ts) (test_alert now))

-- `main`: the code that it exits with.
unfoldable pub alert_test : Http → Bytes → Config → ℕ
alert_test h now cfg = dispatched now (webhook_of h cfg ++ telegram_of h cfg)

abbrev has_telegram : Config → Bool
has_telegram cfg = not (is_empty cfg.telegram_bot_token) && not (is_empty cfg.telegram_chat_id)

-- Each transport that is configured delivers the alert, and there is one.
pub record AllDeliver (h : Http) (now : Bytes) (cfg : Config) : Type 0 where
  pub configured : is_empty cfg.alert_webhook_url && not (has_telegram cfg) ≡ false
  pub webhook :
      is_empty cfg.alert_webhook_url ≡ false
      → DeliversJson h (new_webhook cfg.alert_webhook_url) (test_alert now)
  pub telegram :
      has_telegram cfg ≡ true
      → Delivers h (
          telegram_request h
            (new_telegram cfg.telegram_bot_token cfg.telegram_chat_id)
            (test_alert now))

module _ (h : Http) (now : Bytes) (cfg : Config) where
  abbrev by_post : Option Error
  by_post = by_webhook h (new_webhook cfg.alert_webhook_url) (test_alert now)

  abbrev by_chat : Option Error
  by_chat =
      by_telegram h (new_telegram cfg.telegram_bot_token cfg.telegram_chat_id) (test_alert now)

  -- The exit code in terms of what is configured and what the transports answer.
  code_of : Bool → Bool → ℕ
  code_of true false = 2
  code_of true true = elim by_chat [ none ↦ 0 | some e ↦ 1 ]
  code_of false false = elim by_post [ none ↦ 0 | some e ↦ 1 ]
  code_of false true = elim by_post [ none ↦ elim by_chat [ none ↦ 0 | some e ↦ 1 ] | some e ↦ 1 ]

  alert_test_code :
      alert_test h now cfg ≡ code_of (is_empty cfg.alert_webhook_url) (has_telegram cfg)
  unfolding alert_test notify_all code_of
  alert_test_code = ground arith

  -- The code is 0 exactly if something is configured and whatever is does not fail.
  code_of-zero :
      (empty chat : Bool)
      → (code_of empty chat ≡ 0) ↔ (
          (empty && not chat ≡ false)
          × (empty ≡ false → by_post ≡ none)
          × (chat ≡ true → by_chat ≡ none))
  unfolding code_of
  code_of-zero true false = (λ z. absurd (ground arith), λ (x, y, z). absurd (ground arith))
  code_of-zero true true = elim (Option-cases by_chat) [
    | inl e ↦ (λ z. (refl, λ f. absurd cc, λ t. e), λ w. ground arith)
    | inr (x, e) ↦ (λ z. absurd (ground arith), λ (x, y, z). absurd (ground (arith, z refl)))
  ]
  code_of-zero false false = elim (Option-cases by_post) [
    | inl e ↦ (λ z. (refl, λ f. e, λ t. absurd cc), λ w. ground arith)
    | inr (x, e) ↦ (λ z. absurd (ground arith), λ (x, y, z). absurd (ground (arith, y refl)))
  ]
  code_of-zero false true = elim (Option-cases by_post) [
    | inr (x, e) ↦ (λ z. absurd (ground arith), λ (x, y, z). absurd (ground (arith, y refl)))
    | inl e ↦ elim (Option-cases by_chat) [
      | inr (x, f) ↦ (λ z. absurd (ground arith), λ (x, y, z). absurd (ground (arith, z refl)))
      | inl f ↦ (λ z. (refl, λ g. e, λ t. f), λ w. ground arith)
    ]
  ]

  -- The tool exits with 0 exactly if a transport is configured and every one that is delivers the alert:
  -- its request can be made and is answered below 400.
  pub alert_test-AllDeliver : (alert_test h now cfg ≡ 0) ↔ AllDeliver h now cfg
  alert_test-AllDeliver =
      let (there, back) = code_of-zero (is_empty cfg.alert_webhook_url) (has_telegram cfg) in
      let (posted, post_back) =
        notify_webhook-Delivers h (new_webhook cfg.alert_webhook_url) (test_alert now) in
      let (told, tell_back) =
        (notify_telegram-Delivers h (new_telegram cfg.telegram_bot_token cfg.telegram_chat_id)
          (test_alert now)).0 in
      (
        λ zero_code.
            let (some_there, by_url, by_bot) = there (sym alert_test_code ∙ zero_code) in
            record {
              configured = some_there;
              webhook = λ full. posted (by_url full);
              telegram = λ on. told (by_bot on);
            },
        λ all.
            alert_test_code
            ∙ back (
              all.configured,
              λ full. post_back (all.webhook full),
              λ on. tell_back (all.telegram on),
            ),
      )
