-- ===== src/Lsp.antt =====
-- scripts/lib/lsp-client.mjs: the language-server client. Its framing of messages on the wire and
-- its table of requests are modules of their own.
pub mod Framing
