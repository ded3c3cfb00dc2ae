-- ===== src/Webhook.antt =====
-- src/webhook/webhook_notifier.h and webhook_notifier.cpp: `WebhookNotifier`, its payloads, its
-- selection of webhooks, its attempts and their results.
pub mod Types
pub mod Payload
pub mod Notifier
