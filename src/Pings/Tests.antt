-- ===== src/Pings/Tests.antt =====
-- A round trip of a payload.
