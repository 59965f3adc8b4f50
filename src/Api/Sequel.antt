-- ===== src/Api/Sequel.antt =====
-- What a second request with the same token meets, after a logout or a renewal.
use wg_auth.Db.{Db}
use wg_auth.External.{External}
use wg_auth.Server.{Server}
