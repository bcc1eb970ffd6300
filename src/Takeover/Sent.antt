-- ===== src/Takeover/Sent.antt =====
-- What a human's message does, and that the bot stays silent after it.
