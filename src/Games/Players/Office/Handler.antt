-- ===== src/Games/Players/Office/Handler.antt =====
-- The whole of `handlePlayerJoins` (games/player_management.go): who plays once it has returned, and
-- when it returns an error.
use masc_server.Prelude.{string_key}
