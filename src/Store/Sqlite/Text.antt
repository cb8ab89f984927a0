-- ===== src/Store/Sqlite/Text.antt =====
-- The clock texts of the database and the identifiers of its runs.
use emailer.Prelude.{◌≡◌, none, arith}
use emailer.Prelude.Bytes.{Bytes, codes, index}
use emailer.Errors.{ok}
use emailer.Mail.Types.{Time}
use emailer.Store.Sqlite.{
  Driver, time_layout, format_time, strip_monotonic, parse_first, parse_time,
}

-- What package `time` documents of Format and Parse at the layout RFC3339Nano, for the instants of
-- a program: Parse reads back what Format wrote, and a formatted instant has no space in it.
pub record ReadsBack (db : Driver) (t : Time) : Type 0 where
  pub parse-format : db.parse time_layout (db.format time_layout t) ≡ ok t
  pub no_suffix : index (db.format time_layout t) (codes " m=") ≡ none

strip_monotonic_lem :
    (db : Driver) (s : Bytes) (t : Time)
    → index s (codes " m=") ≡ none
    → db.parse time_layout s ≡ ok t
    → parse_time db s ≡ ok t
unfolding parse_time strip_monotonic parse_first
strip_monotonic_lem db s t none_there reads = ground (arith, none_there, reads)

-- parseTime reads back every instant that formatTime wrote, where package `time` does so at the
-- layout RFC3339Nano and writes no text that looks like the monotonic clock suffix.
pub parse_time-format_time :
    (db : Driver) (t : Time) → ReadsBack db t → parse_time db (format_time db t) ≡ ok t
unfolding format_time
parse_time-format_time db t h =
    let s : Bytes = db.format time_layout t in strip_monotonic_lem db s t h.no_suffix h.parse-format
