-- ===== src/Carriage.antt =====
-- Packets of packet.go, carried over HID by hid/hid.go: from the writer of one side to the reader of the
-- other.
mod Runs
