-- ===== src/Api/Nics/Posted.antt =====
-- What a posted network card is found as: NicController of xcat3/api/controllers/v1/nic.py.
use xcat.Db.{Db}
