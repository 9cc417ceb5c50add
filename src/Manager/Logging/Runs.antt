-- ===== src/Manager/Logging/Runs.antt =====
-- A buffer of manager/logging.go for two lines.
use tunnelmanager.Prelude.{◌∷◌, ◌≡◌, ◌≤◌, [], arith, length, split_lines}
use tunnelmanager.Manager.Logging.{LogBuffer, trim_right, write_log}
use tunnelmanager.Manager.Logging.Recent.{write_log_lem}

abbrev small : LogBuffer
small = record { lines = (97 ∷ []) ∷ (98 ∷ []) ∷ []; capacity = 2 }

write_log_lem_example :
    ((write_log (99 ∷ 10 ∷ 10 ∷ 98 ∷ 10 ∷ []) small).lines ≡ (99 ∷ []) ∷ (98 ∷ []) ∷ [])
    × (length (write_log (99 ∷ 10 ∷ 10 ∷ 98 ∷ 10 ∷ []) small).lines ≤ 2)
unfolding trim_right split_lines
write_log_lem_example =
    write_log_lem (99 ∷ 10 ∷ 10 ∷ 98 ∷ 10 ∷ []) small (omega arith) (omega arith)
