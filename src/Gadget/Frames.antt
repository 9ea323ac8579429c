-- ===== src/Gadget/Frames.antt =====
-- cmd/ipod/main.go: the way of one request from its frame to the handlers.
