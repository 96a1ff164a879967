-- ===== src/Clock.antt =====
-- Python's instants and spans of time, in microseconds from the epoch. An arithmetic result
-- outside their ranges raises `OverflowError`.
use resume_screening_service.Common.{◌&&◌, if◌then◌else◌}
use resume_screening_service.Common.Int.{ℤ, pos, negsuc, ◌+ℤ◌, ◌-ℤ◌, ◌*ℤ◌, leb_ℤ}
use resume_screening_service.Errors.{overflow_error, Result, ok, raised}
use resume_screening_service.Models.{Instant}

abbrev pub minute : ℤ
minute = pos 60000000

abbrev pub day : ℤ
day = pos 86400000000

-- `datetime.min` and `datetime.max`
abbrev pub min_instant : ℤ
min_instant = negsuc 62135596799999999

abbrev pub max_instant : ℤ
max_instant = pos 253402300799999999

-- `timedelta`: at most 999999999 days either way
abbrev pub min_span : ℤ
min_span = negsuc 86399999913599999999

abbrev pub max_span : ℤ
max_span = pos 86399999999999999999

abbrev pub in_range : ℤ → ℤ → ℤ → Result ℤ
in_range lo hi x = if leb_ℤ lo x && leb_ℤ x hi then ok x else raised overflow_error

-- `timedelta(days=n)`, `timedelta(minutes=n)`
unfoldable pub days : ℤ → Result ℤ
days n = in_range min_span max_span (day *ℤ n)

unfoldable pub minutes : ℤ → Result ℤ
minutes n = in_range min_span max_span (minute *ℤ n)

-- `t + span` and `t - span`
unfoldable pub later : Instant → ℤ → Result Instant
later t span = in_range min_instant max_instant (t +ℤ span)

unfoldable pub earlier : Instant → ℤ → Result Instant
earlier t span = in_range min_instant max_instant (t -ℤ span)

-- `datetime.fromtimestamp(seconds, tz=timezone.utc)`, whose range errors are `ValueError` and
-- `OverflowError`, caught by nothing that calls it
unfoldable pub from_timestamp : ℤ → Result Instant
from_timestamp seconds = in_range min_instant max_instant (pos 1000000 *ℤ seconds)
