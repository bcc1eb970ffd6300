-- ===== src/Whatsapp.antt =====
-- sdk/wapsell/whatsapp/webhook.py, and the webhook route of services/api/main.py over it.
mod Payload
mod Receive
mod Signed
mod Encode
mod Handled
mod Delivered
mod Tests
unfoldable pub use Payload.*
unfoldable pub use Receive.*
