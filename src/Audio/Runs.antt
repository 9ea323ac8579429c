-- ===== src/Audio/Runs.antt =====
-- lingo-audio: the handshake at a concrete request.
