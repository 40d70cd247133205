-- ===== src/Dict/Fuel.antt =====
-- memory/dict.h: the loop of `Rehash` ends.
use redis_simple.Dict.{Dict}
