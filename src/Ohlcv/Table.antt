-- ===== src/Ohlcv/Table.antt =====
-- The table `ohlcv_sync_targets` of src/services/ohlcv-worker-state.ts. A statement of SQL is one
-- step on it, and it has one row for each primary key.
pub mod Laws
use opengecko.Prelude.{ℕ, ◌+◌, Bool, ◌&&◌, Option, none, some, List, [], ◌∷◌, if◌then◌else◌}
use opengecko.Ohlcv.{TargetKey, Target, key_eq}

abbrev pub Table : Type 0
Table = List Target

-- `SELECT … WHERE` the primary key is `key`.
unfoldable pub read_target : TargetKey → Table → Option Target
read_target key [] = none
read_target key (t ∷ ts) = if key_eq t.key key then some t else read_target key ts

-- `UPDATE … SET change WHERE` the primary key is `key` `AND guard`, with the number of rows.
unfoldable pub update_where : TargetKey → (Target → Bool) → (Target → Target) → Table → Table × ℕ
update_where key guard change [] = ([], 0)
update_where key guard change (t ∷ ts) =
    let (us, n) = update_where key guard change ts in
    if key_eq t.key key && guard t then (change t ∷ us, n + 1) else (t ∷ us, n)

unfoldable pub without : TargetKey → Table → Table
without key [] = []
without key (t ∷ ts) = let rest = without key ts in if key_eq t.key key then rest else t ∷ rest
